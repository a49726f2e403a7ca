-- ===== src/Rhi/Passes.antt =====
-- The cached pipeline state of modules/renderer_rhi/OpenGL/a_OpenGLContext.cpp, `setRenderPassSpecs`,
-- and the specifications of a_rhi_types.hpp.
pub mod Cache
pub mod Tests
use esp32_particulate_sensor.Prelude.{
  ℕ, ◌≡◌, Bool, true, false, not, ◌&&◌, ◌||◌, List, [], ◌∷◌, ◌++◌, if◌then◌else◌,
}

pub data RasterizerMode : Type 0 where
  fill wireframe : RasterizerMode

pub data CullMode : Type 0 where
  cull_none cull_back cull_front : CullMode

pub data DepthFunc : Type 0 where
  less equal less_equal : DepthFunc

pub data BlendMode : Type 0 where
  opaque alpha_blend : BlendMode

pub record RenderPassSpecs : Type 0 where
  pub rasterizer_mode : RasterizerMode
  pub cull_mode : CullMode
  pub depth_test : Bool
  pub depth_function : DepthFunc
  pub blend_mode : BlendMode
  pub depth_write : Bool

-- The fields of `OpenGLContext` for it.
pub record PassContext : Type 0 where
  pub m_current_specs : RenderPassSpecs
  pub m_is_first_context_init : Bool

pub data Capability : Type 0 where
  gl_cull_face gl_depth_test gl_blend : Capability

pub data GlConstant : Type 0 where
  gl_line gl_fill gl_back gl_front gl_less gl_equal gl_lequal : GlConstant

-- The calls of OpenGL, without the arguments that are always the same.
pub data GlCall : Type 0 where
  polygon_mode cull_face depth_func : GlConstant → GlCall
  enable disable : Capability → GlCall
  blend_func : GlCall
  depth_mask : Bool → GlCall

unfoldable pub new_pass_context : PassContext
new_pass_context = record {
  m_current_specs = record {
    rasterizer_mode = fill;
    cull_mode = cull_back;
    depth_test = true;
    depth_function = less;
    blend_mode = opaque;
    depth_write = true;
  };
  m_is_first_context_init = true;
}

abbrev pub eq_rasterizer : RasterizerMode → RasterizerMode → Bool
eq_rasterizer fill fill = true
eq_rasterizer fill wireframe = false
eq_rasterizer wireframe fill = false
eq_rasterizer wireframe wireframe = true

abbrev pub eq_cull : CullMode → CullMode → Bool
eq_cull cull_none cull_none = true
eq_cull cull_none cull_back = false
eq_cull cull_none cull_front = false
eq_cull cull_back cull_none = false
eq_cull cull_back cull_back = true
eq_cull cull_back cull_front = false
eq_cull cull_front cull_none = false
eq_cull cull_front cull_back = false
eq_cull cull_front cull_front = true

abbrev pub eq_func : DepthFunc → DepthFunc → Bool
eq_func less less = true
eq_func less equal = false
eq_func less less_equal = false
eq_func equal less = false
eq_func equal equal = true
eq_func equal less_equal = false
eq_func less_equal less = false
eq_func less_equal equal = false
eq_func less_equal less_equal = true

abbrev pub eq_blend : BlendMode → BlendMode → Bool
eq_blend opaque opaque = true
eq_blend opaque alpha_blend = false
eq_blend alpha_blend opaque = false
eq_blend alpha_blend alpha_blend = true

abbrev pub eq_bool : Bool → Bool → Bool
eq_bool true b = b
eq_bool false b = not b

abbrev pub rasterizer_calls : RasterizerMode → List GlCall
rasterizer_calls fill = polygon_mode gl_fill ∷ []
rasterizer_calls wireframe = polygon_mode gl_line ∷ []

abbrev pub cull_calls : CullMode → List GlCall
cull_calls cull_none = disable gl_cull_face ∷ []
cull_calls cull_back = enable gl_cull_face ∷ cull_face gl_back ∷ []
cull_calls cull_front = enable gl_cull_face ∷ cull_face gl_front ∷ []

abbrev pub depth_test_calls : Bool → List GlCall
depth_test_calls true = enable gl_depth_test ∷ []
depth_test_calls false = disable gl_depth_test ∷ []

abbrev pub func_calls : DepthFunc → List GlCall
func_calls less = depth_func gl_less ∷ []
func_calls equal = depth_func gl_equal ∷ []
func_calls less_equal = depth_func gl_lequal ∷ []

abbrev pub blend_calls : BlendMode → List GlCall
blend_calls alpha_blend = enable gl_blend ∷ blend_func ∷ []
blend_calls opaque = disable gl_blend ∷ []

-- Each block of the function writes the field of the cache that it sets, so the cache at the end is
-- the new specifications, but for a depth function that is passed over with the depth test off.
unfoldable pub set_render_pass_specs : PassContext → RenderPassSpecs → List GlCall × PassContext
set_render_pass_specs c specs =
    let first = c.m_is_first_context_init in
    let current = c.m_current_specs in
    let new_func =
      specs.depth_test && (first || not (eq_func specs.depth_function current.depth_function)) in
    (
      (if first || not (eq_rasterizer specs.rasterizer_mode current.rasterizer_mode)
            then rasterizer_calls specs.rasterizer_mode
            else [])
          ++ ((if first || not (eq_cull specs.cull_mode current.cull_mode)
                then cull_calls specs.cull_mode
                else [])
              ++ ((if first || not (eq_bool specs.depth_test current.depth_test)
                    then depth_test_calls specs.depth_test
                    else [])
                  ++ ((if new_func then func_calls specs.depth_function else [])
                      ++ ((if first || not (eq_blend specs.blend_mode current.blend_mode)
                            then blend_calls specs.blend_mode
                            else [])
                          ++ (if first || not (eq_bool specs.depth_write current.depth_write)
                              then depth_mask specs.depth_write ∷ []
                              else []))))),
      record {
        m_current_specs = record specs {
          depth_function = if new_func then specs.depth_function else current.depth_function;
        };
        m_is_first_context_init = false;
      },
    )

-- A frame's passes, one after the other.
unfoldable pub set_passes : PassContext → List RenderPassSpecs → List GlCall × PassContext
unfolding set_render_pass_specs
set_passes c [] = ([], c)
set_passes c (s ∷ ss) =
    let (calls, d) = set_render_pass_specs c s in
    let (more, e) = set_passes d ss in (calls ++ more, e)
