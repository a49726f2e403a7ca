-- ===== src/Rhi/Passes/Tests.antt =====
-- A frame of passes through the cache of modules/renderer_rhi/OpenGL/a_OpenGLContext.cpp.
use esp32_particulate_sensor.Prelude.{◌≡◌, refl, true, false, [], ◌∷◌, ◌++◌}
use esp32_particulate_sensor.Rhi.Passes.{
  RenderPassSpecs, fill, cull_none, cull_back, less, opaque, alpha_blend, gl_fill, gl_less,
  gl_cull_face, gl_blend, disable, enable, blend_func, depth_mask, set_render_pass_specs,
  set_passes, new_pass_context,
}
use esp32_particulate_sensor.Rhi.Passes.Cache.{Pipeline, Shows, ask_all, set_passes-Shows}

abbrev geometry : RenderPassSpecs
geometry = record {
  rasterizer_mode = fill;
  cull_mode = cull_back;
  depth_test = true;
  depth_function = less;
  blend_mode = opaque;
  depth_write = true;
}

abbrev effects : RenderPassSpecs
effects = record geometry { cull_mode = cull_none; blend_mode = alpha_blend; depth_write = false }

abbrev fresh : Pipeline
fresh = record {
  polygons = gl_fill;
  culling = false;
  culled = gl_fill;
  depth_testing = false;
  comparison = gl_less;
  blending = false;
  blends_alpha = false;
  writes_depth = true;
}

-- Only what differs is sent.
only_changes :
    (set_render_pass_specs (set_passes new_pass_context (geometry ∷ [])).1 effects).0
    ≡ disable gl_cull_face ∷ enable gl_blend ∷ blend_func ∷ depth_mask false ∷ []
unfolding set_render_pass_specs set_passes new_pass_context
only_changes = refl

set_passes-Shows_example : Shows effects (
    ask_all fresh (
      (set_passes new_pass_context (geometry ∷ [])).0
      ++ (set_render_pass_specs (set_passes new_pass_context (geometry ∷ [])).1 effects).0))
set_passes-Shows_example = set_passes-Shows (geometry ∷ []) effects fresh refl
