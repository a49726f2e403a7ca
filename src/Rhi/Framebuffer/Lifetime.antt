-- ===== src/Rhi/Framebuffer/Lifetime.antt =====
-- Which objects of OpenGL a framebuffer makes and deletes.
use esp32_particulate_sensor.Prelude.{
  suc, ap, refl, none, ◌≤◌, length, ℕ, ◌+◌, ◌≡◌, ◌∙◌, Bool, true, false, not, ◌&&◌, ◌||◌, List, [],
  ◌∷◌, ◌++◌, arith, if◌then◌else◌, ◌==◌, Bool-cases, inl, inr, is_some, some, Option, length, ◌≤◌,
  Option-cases,
}
use esp32_particulate_sensor.Rhi.Framebuffer.{
  rebuild, gen_framebuffer, bind_framebuffer, gen_renderbuffer, bind_renderbuffer,
  renderbuffer_storage, attach_depth_renderbuffer, gen_texture, bind_texture, tex_image,
  attach_depth_texture, depth_format, delete_texture, delete_renderbuffer, delete_framebuffer,
  Driver, Framebuffer, FramebufferSpecification, FramebufferTextureFormat, AttachedTexture, GlCall,
  History, is_multisampled, depth_spec, delete_textures, destroy, color_calls, attach_colors,
  configure_draw_buffers, invalidate, attach_color_attachments, attach_depth_attachment,
  color_specs,
}
use esp32_particulate_sensor.Rhi.Framebuffer.Objects.{
  deletes, Kind, framebuffers, textures, renderbuffers, lives, lives_from, lives_from-append, after,
  hit,
}

abbrev pub has_id : ℕ → List AttachedTexture → Bool
has_id j [] = false
has_id j (t ∷ ts) = t.texture_id == j || has_id j ts

-- The names that destroy deletes, for each kind of object.
abbrev pub deletes_name : Kind → Framebuffer → ℕ → Bool
deletes_name framebuffers f j = not (f.m_renderer_id == 0) && f.m_renderer_id == j
deletes_name textures f j =
    has_id j f.m_color_attachments || not (f.m_depth_attachment == 0) && f.m_depth_attachment == j
deletes_name renderbuffers f j = not (f.m_depth_attachment == 0) && f.m_depth_attachment == j

-- The depth attachment is a renderbuffer exactly with more than one sample.
abbrev pub depth_is : Kind → FramebufferSpecification → Bool
depth_is framebuffers s = false
depth_is textures s = is_some (depth_spec s.attachments) && not (is_multisampled s)
depth_is renderbuffers s = is_some (depth_spec s.attachments) && is_multisampled s

-- The objects that a framebuffer has made for its specification.
abbrev pub has_made : Kind → Framebuffer → ℕ → Bool
has_made framebuffers f j = f.m_renderer_id == j
has_made textures f j =
    has_id j f.m_color_attachments || depth_is textures f.m_specs && f.m_depth_attachment == j
has_made renderbuffers f j = depth_is renderbuffers f.m_specs && f.m_depth_attachment == j

abbrev made_depth : Kind → Bool → Bool
made_depth framebuffers multisampled = false
made_depth textures multisampled = not multisampled
made_depth renderbuffers multisampled = multisampled

abbrev made_one : Kind → ℕ → ℕ → Bool
made_one textures id j = id == j
made_one framebuffers id j = false
made_one renderbuffers id j = false

abbrev made_colors : Kind → List AttachedTexture → ℕ → Bool
made_colors textures ts j = has_id j ts
made_colors framebuffers ts j = false
made_colors renderbuffers ts j = false

-- Without a framebuffer object there are no attachments.
pub record IsBuilt (f : Framebuffer) : Type 0 where
  pub no_colors : f.m_renderer_id ≡ 0 → f.m_color_attachments ≡ []
  pub no_depth : f.m_renderer_id ≡ 0 → f.m_depth_attachment ≡ 0

delete_textures_lem :
    (b : Bool) (j : ℕ) (ts : List AttachedTexture)
    → (lives_from b framebuffers j (delete_textures ts) ≡ b)
      × (lives_from b textures j (delete_textures ts) ≡ (b && not (has_id j ts)))
      × (lives_from b renderbuffers j (delete_textures ts) ≡ b)
delete_textures_lem b j [] = ground arith
delete_textures_lem b j (t ∷ ts) =
    ground (arith, delete_textures_lem b j ts, delete_textures_lem false j ts)

abbrev depth_deletions : ℕ → List GlCall
depth_deletions d = if d == 0 then [] else delete_texture d ∷ delete_renderbuffer d ∷ []

abbrev deletions : Framebuffer → List GlCall
deletions f =
    delete_framebuffer f.m_renderer_id
    ∷ (delete_textures f.m_color_attachments ++ depth_deletions f.m_depth_attachment)

deletions_lem :
    (k : Kind) (f : Framebuffer) (b : Bool) (j : ℕ)
    → (f.m_renderer_id == 0) ≡ false
    → lives_from b k j (deletions f) ≡ (b && not (deletes_name k f j))
deletions_lem framebuffers f b j on = ground (
  arith,
  lives_from-append (after b (hit deletes f.m_renderer_id j)) framebuffers j
      (delete_textures f.m_color_attachments) (depth_deletions f.m_depth_attachment),
  delete_textures_lem (after b (hit deletes f.m_renderer_id j)) j f.m_color_attachments,
)
deletions_lem textures f b j on = ground (
  arith,
  lives_from-append b textures j (delete_textures f.m_color_attachments)
      (depth_deletions f.m_depth_attachment),
  delete_textures_lem b j f.m_color_attachments,
)
deletions_lem renderbuffers f b j on = ground (
  arith,
  lives_from-append b renderbuffers j (delete_textures f.m_color_attachments)
      (depth_deletions f.m_depth_attachment),
  delete_textures_lem b j f.m_color_attachments,
)

nothing_deleted :
    (k : Kind) (f : Framebuffer) (j : ℕ)
    → IsBuilt f
    → (f.m_renderer_id == 0) ≡ true
    → deletes_name k f j ≡ false
nothing_deleted k f j built off = ground (arith, built.no_colors, built.no_depth)

destroy_lem :
    (k : Kind) (f : Framebuffer) (h : History) (j : ℕ)
    → IsBuilt f
    → lives k j (destroy f h).1 ≡ (lives k j h && not (deletes_name k f j))
unfolding destroy
destroy_lem k f h j built = elim (Bool-cases (f.m_renderer_id == 0)) [
  | inl off ↦ rw (off, nothing_deleted k f j built off) (ground arith)
  | inr on ↦
      rw on (lives_from-append false k j h (deletions f) ∙ deletions_lem k f (lives k j h) j on)
]

abbrev emptied : FramebufferSpecification → Framebuffer
emptied s = record {
  m_renderer_id = 0;
  m_specs = s;
  m_color_attachments = [];
  m_depth_attachment = 0;
}

destroy-eq-emptied :
    (f : Framebuffer) (h : History) → IsBuilt f → (destroy f h).0 ≡ emptied f.m_specs
unfolding destroy
destroy-eq-emptied f h built = ground (arith, built.no_colors, built.no_depth)

color_calls_lem :
    (k : Kind) (b : Bool) (j : ℕ) (s : FramebufferSpecification) (id i : ℕ)
    (wanted : FramebufferTextureFormat)
    → lives_from b k j (color_calls s id wanted i) ≡ (made_one k id j || b)
unfolding color_calls
color_calls_lem framebuffers b j s id i wanted = ground arith
color_calls_lem textures b j s id i wanted = ground arith
color_calls_lem renderbuffers b j s id i wanted = ground arith

abbrev renderbuffer_calls : ℕ → FramebufferSpecification → List GlCall
renderbuffer_calls n s =
    gen_renderbuffer n
    ∷ bind_renderbuffer n
    ∷ renderbuffer_storage s.samples s.width s.height
    ∷ attach_depth_renderbuffer n
    ∷ []

abbrev texture_calls : ℕ → FramebufferSpecification → FramebufferTextureFormat → List GlCall
texture_calls n s wanted =
    gen_texture n
    ∷ bind_texture n
    ∷ tex_image (depth_format wanted) s.width s.height
    ∷ attach_depth_texture n
    ∷ []

renderbuffer_calls_lem :
    (k : Kind) (b : Bool) (j n : ℕ) (s : FramebufferSpecification)
    → lives_from b k j (renderbuffer_calls n s) ≡ (made_depth k true && n == j || b)
renderbuffer_calls_lem framebuffers b j n s = ground arith
renderbuffer_calls_lem textures b j n s = ground arith
renderbuffer_calls_lem renderbuffers b j n s = ground arith

texture_calls_lem :
    (k : Kind) (b : Bool) (j n : ℕ) (s : FramebufferSpecification)
    (wanted : FramebufferTextureFormat)
    → lives_from b k j (texture_calls n s wanted) ≡ (made_depth k false && n == j || b)
texture_calls_lem framebuffers b j n s wanted = ground arith
texture_calls_lem textures b j n s wanted = ground arith
texture_calls_lem renderbuffers b j n s wanted = ground arith

end_leaves :
    (k : Kind) (b : Bool) (j : ℕ) → lives_from b k j (bind_texture 0 ∷ bind_framebuffer 0 ∷ []) ≡ b
end_leaves framebuffers b j = refl
end_leaves textures b j = refl
end_leaves renderbuffers b j = refl

module _ (gl : Driver) where
  attach_colors_lem :
      (k : Kind) (j : ℕ) (s : FramebufferSpecification) (fs : List FramebufferTextureFormat) (i : ℕ)
      (h : History)
      → let (ts, h') = attach_colors gl s fs i h in
        lives k j h' ≡ (made_colors k ts j || lives k j h)
  unfolding attach_colors
  attach_colors_lem k j s [] i h = ground arith
  attach_colors_lem k j s (f ∷ fs) i h = ground (
    arith,
    attach_colors_lem k j s fs (i + 1) (h ++ color_calls s (gl.texture_name h) f i),
    color_calls_lem k (lives k j h) j s (gl.texture_name h) i f,
    lives_from-append false k j h (color_calls s (gl.texture_name h) f i),
  )

  attach_color_attachments_lem :
      (k : Kind) (j : ℕ) (s : FramebufferSpecification) (fs : List FramebufferTextureFormat)
      (h : History)
      → let (ts, h') = attach_color_attachments gl [] s fs h in
        lives k j h' ≡ (made_colors k ts j || lives k j h)
  unfolding attach_color_attachments
  attach_color_attachments_lem k j s [] h = ground arith
  attach_color_attachments_lem k j s (f ∷ fs) h = attach_colors_lem k j s (f ∷ fs) 0 h

  depth_calls_lem :
      (k : Kind) (j : ℕ) (s : FramebufferSpecification) (wanted : Option FramebufferTextureFormat)
      (h : History)
      → let (d, h') = attach_depth_attachment gl 0 s wanted h in
        lives k j h'
        ≡ (is_some wanted && (made_depth k (is_multisampled s) && d == j) || lives k j h)
  unfolding attach_depth_attachment
  depth_calls_lem k j s none h = ground arith
  depth_calls_lem k j s (some f) h = elim (Bool-cases (is_multisampled s)) [
    | inl on ↦ rw on (
        lives_from-append false k j h (renderbuffer_calls (gl.renderbuffer_name h) s)
        ∙ renderbuffer_calls_lem k (lives k j h) j (gl.renderbuffer_name h) s)
    | inr off ↦ rw off (
        lives_from-append false k j h (texture_calls (gl.texture_name h) s f)
        ∙ texture_calls_lem k (lives k j h) j (gl.texture_name h) s f)
  ]

  buffers_leave :
      (k : Kind) (b : Bool) (j n : ℕ) (cs : List GlCall)
      → configure_draw_buffers n ≡ some cs
      → lives_from b k j cs ≡ b
  unfolding configure_draw_buffers
  buffers_leave k b j n cs h = ground arith

  few_buffers : (n : ℕ) → n ≤ 4 → is_some (configure_draw_buffers n) ≡ true
  unfolding configure_draw_buffers
  few_buffers n h = ground arith

  length-attach_colors :
      (s : FramebufferSpecification) (fs : List FramebufferTextureFormat) (i : ℕ) (h : History)
      → length (attach_colors gl s fs i h).0 ≡ length fs
  unfolding attach_colors
  length-attach_colors s [] i h = refl
  length-attach_colors s (f ∷ fs) i h =
      ap suc (length-attach_colors s fs (i + 1) (h ++ color_calls s (gl.texture_name h) f i))

  length-attach_color_attachments :
      (s : FramebufferSpecification) (fs : List FramebufferTextureFormat) (h : History)
      → length (attach_color_attachments gl [] s fs h).0 ≡ length fs
  unfolding attach_color_attachments
  length-attach_color_attachments s [] h = refl
  length-attach_color_attachments s (f ∷ fs) h = length-attach_colors s (f ∷ fs) 0 h

  abbrev Rebuilt :
      FramebufferSpecification → History → Option (Bool × Framebuffer × History) → Type 0
  Rebuilt s h o =
      (complete : Bool) × (g : Framebuffer) × (h' : History) × (o ≡ some (complete, g, h'))
      × (g.m_specs ≡ s)
      × (length g.m_color_attachments ≡ length (color_specs s.attachments))
      × ((k : Kind) (j : ℕ) → lives k j h' ≡ (has_made k g j || lives k j h))

  module _ (s : FramebufferSpecification) (h1 : History) where
    abbrev id : ℕ
    id = gl.framebuffer_name h1

    abbrev h2 : History
    h2 = h1 ++ (gen_framebuffer id ∷ bind_framebuffer id ∷ [])

    abbrev colored : List AttachedTexture × History
    colored = attach_color_attachments gl [] s (color_specs s.attachments) h2

    abbrev deep : ℕ × History
    deep = attach_depth_attachment gl 0 s (depth_spec s.attachments) colored.1

    abbrev made : Framebuffer
    made = record {
      m_renderer_id = id;
      m_specs = s;
      m_color_attachments = colored.0;
      m_depth_attachment = deep.0;
    }

    made_lem : (k : Kind) (j : ℕ) → lives k j deep.1 ≡ (has_made k made j || lives k j h1)
    made_lem framebuffers j = ground (
      arith,
      depth_calls_lem framebuffers j s (depth_spec s.attachments) colored.1,
      attach_color_attachments_lem framebuffers j s (color_specs s.attachments) h2,
      lives_from-append false framebuffers j h1 (gen_framebuffer id ∷ bind_framebuffer id ∷ []),
    )
    made_lem textures j = ground (
      arith,
      depth_calls_lem textures j s (depth_spec s.attachments) colored.1,
      attach_color_attachments_lem textures j s (color_specs s.attachments) h2,
      lives_from-append false textures j h1 (gen_framebuffer id ∷ bind_framebuffer id ∷ []),
    )
    made_lem renderbuffers j = ground (
      arith,
      depth_calls_lem renderbuffers j s (depth_spec s.attachments) colored.1,
      attach_color_attachments_lem renderbuffers j s (color_specs s.attachments) h2,
      lives_from-append false renderbuffers j h1 (gen_framebuffer id ∷ bind_framebuffer id ∷ []),
    )

    settled :
        (buffers : List GlCall)
        → configure_draw_buffers (length colored.0) ≡ some buffers
        → (k : Kind) (j : ℕ) → lives k j (deep.1 ++ buffers) ≡ (has_made k made j || lives k j h1)
    settled buffers at k j =
        lives_from-append false k j deep.1 buffers
        ∙ (buffers_leave k (lives k j deep.1) j (length colored.0) buffers at ∙ made_lem k j)

    rebuild_lem : length (color_specs s.attachments) ≤ 4 → Rebuilt s h1 (rebuild gl (emptied s) h1)
    unfolding rebuild
    rebuild_lem few = elim (Option-cases (configure_draw_buffers (length colored.0))) [
      | inl out ↦ absurd (
          ground (
            arith,
            out,
            few_buffers (length colored.0),
            length-attach_color_attachments s (color_specs s.attachments) h2,
          ))
      | inr (buffers, at) ↦ elim (Bool-cases (gl.is_complete (deep.1 ++ buffers))) [
        | inl whole ↦ (
          true,
          made,
          (deep.1 ++ buffers) ++ (bind_texture 0 ∷ bind_framebuffer 0 ∷ []),
          rw (at, whole) refl,
          refl,
          length-attach_color_attachments s (color_specs s.attachments) h2,
          λ k j.
              lives_from-append false k j (deep.1 ++ buffers)
                (bind_texture 0 ∷ bind_framebuffer 0 ∷ [])
              ∙ (end_leaves k (lives k j (deep.1 ++ buffers)) j ∙ settled buffers at k j),
        )
        | inr broken ↦ (
          false,
          made,
          deep.1 ++ buffers,
          rw (at, broken) refl,
          refl,
          length-attach_color_attachments s (color_specs s.attachments) h2,
          λ k j. settled buffers at k j,
        )
      ]
    ]

  -- invalidate ends well on at most four color attachments, whether the framebuffer is complete or
  -- the exception leaves it. The objects that live afterwards are those that it has made for the
  -- specification, and of those before all whose names destroy does not delete: the old
  -- framebuffer, its color textures, and both the texture and the renderbuffer that have the name of
  -- its depth attachment.
  pub invalidate_lem :
      (f : Framebuffer) (h : History)
      → IsBuilt f
      → length (color_specs f.m_specs.attachments) ≤ 4
      → (complete : Bool) × (g : Framebuffer) × (h' : History) × (invalidate gl f h
          ≡ some (complete, g, h'))
        × (g.m_specs ≡ f.m_specs)
        × (length g.m_color_attachments ≡ length (color_specs f.m_specs.attachments))
        × ((k : Kind) (j : ℕ)
            → lives k j h' ≡ (has_made k g j || lives k j h && not (deletes_name k f j)))
  unfolding invalidate
  invalidate_lem f h built few =
      let r = rebuild_lem f.m_specs (destroy f h).1 few in
      (
        r.0,
        r.1,
        r.2,
        ap (λ g. rebuild gl g (destroy f h).1) (destroy-eq-emptied f h built) ∙ r.3,
        r.4,
        r.5,
        λ k j. r.6 k j ∙ ap (λ x. has_made k r.1 j || x) (destroy_lem k f h j built),
      )
