-- ===== src/Rhi/Framebuffer.antt =====
-- `FramebufferImpl` of modules/renderer_rhi/OpenGL/a_opengl_framebuffer.cpp with the specifications
-- of a_rhi_framebuffer.hpp. The calls of OpenGL so far are the state of the driver: which name a
-- glGen call returns, and whether a framebuffer is complete, are functions of them. A read out of
-- range is `none`.
pub mod Objects
pub mod Lifetime
pub mod Tests
use esp32_particulate_sensor.Prelude.{
  ℕ, ◌≡◌, ◌+◌, Bool, true, false, not, ◌&&◌, ◌||◌, List, [], ◌∷◌, ◌++◌, map, Option, none, some,
  if◌then◌else◌, ltb, leb, ◌==◌, length, ◌>>=◌,
}

pub data FramebufferTextureFormat : Type 0 where
  no_format rgba8 rgba16f depth24_stencil8 depth32f : FramebufferTextureFormat

-- `generateMipmaps` is read nowhere.
pub record FramebufferSpecification : Type 0 where
  pub width : ℕ
  pub height : ℕ
  pub samples : ℕ
  pub attachments : List FramebufferTextureFormat

pub record AttachedTexture : Type 0 where
  pub texture_id : ℕ
  pub width : ℕ
  pub height : ℕ

pub record Framebuffer : Type 0 where
  pub m_renderer_id : ℕ
  pub m_specs : FramebufferSpecification
  pub m_color_attachments : List AttachedTexture
  pub m_depth_attachment : ℕ

pub data InternalFormat : Type 0 where
  gl_rgba8 gl_rgba16f gl_r8 gl_depth_component32f gl_depth24_stencil8 : InternalFormat

-- The calls, with the arguments that vary. The first number is the name of the object.
pub data GlCall : Type 0 where
  gen_framebuffer delete_framebuffer bind_framebuffer : ℕ → GlCall
  gen_texture delete_texture bind_texture : ℕ → GlCall
  gen_renderbuffer delete_renderbuffer bind_renderbuffer : ℕ → GlCall
  tex_image : InternalFormat → ℕ → ℕ → GlCall
  tex_image_multisample : ℕ → InternalFormat → ℕ → ℕ → GlCall
  tex_parameters : Bool → GlCall
  renderbuffer_storage : ℕ → ℕ → ℕ → GlCall
  attach_color : ℕ → ℕ → GlCall
  attach_depth_texture attach_depth_renderbuffer : ℕ → GlCall
  draw_buffers : ℕ → GlCall
  draw_no_buffer : GlCall

abbrev pub History : Type 0
History = List GlCall

pub record Driver : Type 0 where
  pub framebuffer_name : History → ℕ
  pub texture_name : History → ℕ
  pub renderbuffer_name : History → ℕ
  pub is_complete : History → Bool

abbrev pub is_depth : FramebufferTextureFormat → Bool
is_depth depth24_stencil8 = true
is_depth depth32f = true
is_depth no_format = false
is_depth rgba8 = false
is_depth rgba16f = false

abbrev pub color_specs : List FramebufferTextureFormat → List FramebufferTextureFormat
color_specs [] = []
color_specs (s ∷ ss) = if is_depth s then color_specs ss else s ∷ color_specs ss

-- The last depth attachment counts.
abbrev pub depth_spec : List FramebufferTextureFormat → Option FramebufferTextureFormat
depth_spec [] = none
depth_spec (s ∷ ss) = elim (depth_spec ss) [
  | some d ↦ some d
  | none ↦ if is_depth s then some s else none
]

abbrev pub internal_format : FramebufferTextureFormat → InternalFormat
internal_format rgba16f = gl_rgba16f
internal_format no_format = gl_r8
internal_format rgba8 = gl_rgba8
internal_format depth24_stencil8 = gl_rgba8
internal_format depth32f = gl_rgba8

abbrev pub depth_format : FramebufferTextureFormat → InternalFormat
depth_format depth32f = gl_depth_component32f
depth_format no_format = gl_depth24_stencil8
depth_format rgba8 = gl_depth24_stencil8
depth_format rgba16f = gl_depth24_stencil8
depth_format depth24_stencil8 = gl_depth24_stencil8

abbrev pub is_multisampled : FramebufferSpecification → Bool
is_multisampled s = ltb 1 s.samples

-- The filter is nearest for an attachment without a format.
abbrev pub is_nearest : FramebufferTextureFormat → Bool
is_nearest no_format = true
is_nearest rgba8 = false
is_nearest rgba16f = false
is_nearest depth24_stencil8 = false
is_nearest depth32f = false

abbrev pub delete_textures : List AttachedTexture → List GlCall
delete_textures [] = []
delete_textures (t ∷ ts) = delete_texture t.texture_id ∷ delete_textures ts

unfoldable pub destroy : Framebuffer → History → Framebuffer × History
destroy f h = if f.m_renderer_id == 0 then (f, h) else (
  record f { m_renderer_id = 0; m_color_attachments = []; m_depth_attachment = 0 },
  h
      ++ (delete_framebuffer f.m_renderer_id
          ∷ (delete_textures f.m_color_attachments
              ++ (if f.m_depth_attachment == 0
                  then []
                  else delete_texture f.m_depth_attachment
                    ∷ delete_renderbuffer f.m_depth_attachment
                    ∷ []))),
)

unfoldable pub color_calls :
    FramebufferSpecification → ℕ → FramebufferTextureFormat → ℕ → List GlCall
color_calls s id format i =
    gen_texture id
    ∷ bind_texture id
    ∷ ((if is_multisampled s
          then tex_image_multisample s.samples (internal_format format) s.width s.height ∷ []
          else tex_image (internal_format format) s.width s.height
            ∷ tex_parameters (is_nearest format)
            ∷ [])
        ++ attach_color i id ∷ [])

-- Four draw buffers are listed in the array that glDrawBuffers reads.
unfoldable pub configure_draw_buffers : ℕ → Option (List GlCall)
configure_draw_buffers colors =
    if ltb 1 colors
    then (if leb colors 4 then some (draw_buffers colors ∷ []) else none)
    else some (if colors == 0 then draw_no_buffer ∷ [] else [])

module _ (gl : Driver) where
  -- The loop over the color attachments, at the `i`-th.
  unfoldable pub attach_colors :
      FramebufferSpecification
      → List FramebufferTextureFormat
      → ℕ
      → History
      → List AttachedTexture × History
  unfolding color_calls
  attach_colors s [] i h = ([], h)
  attach_colors s (format ∷ formats) i h =
      let id = gl.texture_name h in
      let (ts, k) = attach_colors s formats (i + 1) (h ++ color_calls s id format i) in
      (record { texture_id = id; width = s.width; height = s.height } ∷ ts, k)

  -- Without a color attachment the old ones stay.
  unfoldable pub attach_color_attachments :
      List AttachedTexture
      → FramebufferSpecification
      → List FramebufferTextureFormat
      → History
      → List AttachedTexture × History
  unfolding attach_colors
  attach_color_attachments old s [] h = (old, h)
  attach_color_attachments old s (format ∷ formats) h = attach_colors s (format ∷ formats) 0 h

  unfoldable pub attach_depth_attachment :
      ℕ → FramebufferSpecification → Option FramebufferTextureFormat → History → ℕ × History
  attach_depth_attachment old s none h = (old, h)
  attach_depth_attachment old s (some format) h =
      if is_multisampled s
      then (
        gl.renderbuffer_name h,
        h
            ++ (gen_renderbuffer (gl.renderbuffer_name h)
                ∷ bind_renderbuffer (gl.renderbuffer_name h)
                ∷ renderbuffer_storage s.samples s.width s.height
                ∷ attach_depth_renderbuffer (gl.renderbuffer_name h)
                ∷ []),
      )
      else (
        gl.texture_name h,
        h
            ++ (gen_texture (gl.texture_name h)
                ∷ bind_texture (gl.texture_name h)
                ∷ tex_image (depth_format format) s.width s.height
                ∷ attach_depth_texture (gl.texture_name h)
                ∷ []),
      )

  -- `invalidate` from the new framebuffer object on. The result is whether the framebuffer is
  -- complete, or else the exception leaves the function, and the state in both cases.
  unfoldable pub rebuild : Framebuffer → History → Option (Bool × Framebuffer × History)
  unfolding attach_color_attachments attach_depth_attachment configure_draw_buffers
  rebuild g h1 =
      let s = g.m_specs in
      let id = gl.framebuffer_name h1 in
      let h2 = h1 ++ (gen_framebuffer id ∷ bind_framebuffer id ∷ []) in
      let (colors, h3) =
        attach_color_attachments g.m_color_attachments s (color_specs s.attachments) h2 in
      let (depth, h4) =
        attach_depth_attachment g.m_depth_attachment s (depth_spec s.attachments) h3 in
      let made : Framebuffer = record {
        m_renderer_id = id;
        m_specs = s;
        m_color_attachments = colors;
        m_depth_attachment = depth;
      } in
      configure_draw_buffers (length colors) >>= λ buffers.
      let h5 = h4 ++ buffers in
      if gl.is_complete h5
      then some (true, made, h5 ++ (bind_texture 0 ∷ bind_framebuffer 0 ∷ []))
      else some (false, made, h5)

  unfoldable pub invalidate : Framebuffer → History → Option (Bool × Framebuffer × History)
  unfolding destroy rebuild
  invalidate f h = rebuild (destroy f h).0 (destroy f h).1

  -- The size is an ivec2; a negative number stands as 0.
  unfoldable pub resize : Framebuffer → ℕ → ℕ → History → Option (Bool × Framebuffer × History)
  unfolding invalidate
  resize f width height h =
      if width == 0 || height == 0
      then some (true, f, h)
      else invalidate (record f { m_specs = record f.m_specs { width = width; height = height } }) h

  unfoldable pub new_framebuffer :
      FramebufferSpecification → History → Option (Bool × Framebuffer × History)
  unfolding invalidate
  new_framebuffer s =
      invalidate (record {
        m_renderer_id = 0;
        m_specs = s;
        m_color_attachments = [];
        m_depth_attachment = 0;
      })
