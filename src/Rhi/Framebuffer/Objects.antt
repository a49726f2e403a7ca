-- ===== src/Rhi/Framebuffer/Objects.antt =====
-- The objects of OpenGL that live after a history of calls.
use esp32_particulate_sensor.Prelude.{
  ℕ, ◌≡◌, refl, Bool, true, false, List, [], ◌∷◌, ◌++◌, if◌then◌else◌, ◌==◌,
}
use esp32_particulate_sensor.Rhi.Framebuffer.{
  GlCall, History, gen_framebuffer, delete_framebuffer, gen_texture, delete_texture,
  gen_renderbuffer, delete_renderbuffer,
}

pub data Kind : Type 0 where
  framebuffers textures renderbuffers : Kind

-- What a call does to one object: it makes it, deletes it or leaves it.
pub data Effect : Type 0 where
  makes deletes leaves : Effect

abbrev pub hit : Effect → ℕ → ℕ → Effect
hit e n j = if n == j then e else leaves

abbrev pub effect : Kind → ℕ → GlCall → Effect
effect framebuffers j (gen_framebuffer n) = hit makes n j
effect framebuffers j (delete_framebuffer n) = hit deletes n j
effect textures j (gen_texture n) = hit makes n j
effect textures j (delete_texture n) = hit deletes n j
effect renderbuffers j (gen_renderbuffer n) = hit makes n j
effect renderbuffers j (delete_renderbuffer n) = hit deletes n j
effect k j c = leaves

abbrev pub after : Bool → Effect → Bool
after b makes = true
after b deletes = false
after b leaves = b

-- Whether the object lives after the calls, if it lived before them or not.
abbrev pub lives_from : Bool → Kind → ℕ → List GlCall → Bool
lives_from b k j [] = b
lives_from b k j (c ∷ cs) = lives_from (after b (effect k j c)) k j cs

abbrev pub lives : Kind → ℕ → History → Bool
lives k j h = lives_from false k j h

pub lives_from-append :
    (b : Bool) (k : Kind) (j : ℕ) (cs ds : List GlCall)
    → lives_from b k j (cs ++ ds) ≡ lives_from (lives_from b k j cs) k j ds
lives_from-append b k j [] ds = refl
lives_from-append b k j (c ∷ cs) ds = lives_from-append (after b (effect k j c)) k j cs ds
