-- ===== src/Rhi/Framebuffer/Tests.antt =====
-- A framebuffer of modules/renderer_rhi/OpenGL/a_opengl_framebuffer.cpp that is resized and destroyed.
use esp32_particulate_sensor.Prelude.{
  ℕ, ◌≡◌, ◌+◌, refl, Bool, true, false, not, ◌&&◌, ◌||◌, [], ◌∷◌, none, some, arith, length,
}
use esp32_particulate_sensor.Rhi.Framebuffer.{
  Driver, Framebuffer, rgba16f, depth32f, gen_framebuffer, gen_texture, gen_renderbuffer, History,
  color_specs, destroy, invalidate, configure_draw_buffers,
}
use esp32_particulate_sensor.Rhi.Framebuffer.Objects.{Kind, renderbuffers, lives}
use esp32_particulate_sensor.Rhi.Framebuffer.Lifetime.{
  IsBuilt, has_made, deletes_name, invalidate_lem,
}

-- Names are handed out in order.
abbrev counting : Driver
counting = record {
  framebuffer_name = λ h. length h + 1;
  texture_name = λ h. length h + 1;
  renderbuffer_name = λ h. length h + 1;
  is_complete = λ h. true;
}

abbrev scene : Framebuffer
scene = record {
  m_renderer_id = 1;
  m_specs = record { width = 4; height = 4; samples = 1; attachments = rgba16f ∷ depth32f ∷ [] };
  m_color_attachments = record { texture_id = 2; width = 4; height = 4 } ∷ [];
  m_depth_attachment = 3;
}

-- The renderbuffer 3 belongs to another framebuffer.
abbrev before : History
before = gen_framebuffer 1 ∷ gen_texture 2 ∷ gen_texture 3 ∷ gen_renderbuffer 3 ∷ []

foreign_renderbuffer_deleted : lives renderbuffers 3 (destroy scene before).1 ≡ false
unfolding destroy
foreign_renderbuffer_deleted = refl

five_buffers_read_out_of_range : configure_draw_buffers 5 ≡ none
unfolding configure_draw_buffers
five_buffers_read_out_of_range = refl

scene-IsBuilt : IsBuilt scene
scene-IsBuilt = record {
  no_colors = λ e. absurd (omega arith);
  no_depth = λ e. absurd (omega arith);
}

invalidate_lem_example :
    (complete : Bool) × (g : Framebuffer) × (h' : History) × (invalidate counting scene before
      ≡ some (complete, g, h'))
    × (g.m_specs ≡ scene.m_specs)
    × (length g.m_color_attachments ≡ length (color_specs scene.m_specs.attachments))
    × ((k : Kind) (j : ℕ)
        → lives k j h' ≡ (has_made k g j || lives k j before && not (deletes_name k scene j)))
invalidate_lem_example = invalidate_lem counting scene before scene-IsBuilt (omega arith)
