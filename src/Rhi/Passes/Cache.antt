-- ===== src/Rhi/Passes/Cache.antt =====
-- The cache of the pipeline state never hides a setting that OpenGL does not have.
use mathlib.Core.Path.{subst}
use esp32_particulate_sensor.Prelude.{
  if◌then◌else◌, not, ◌&&◌, ◌||◌, ◌≡◌, refl, Bool, true, false, List, [], ◌∷◌, ◌++◌, arith, ◌∙◌,
  sym,
}
use esp32_particulate_sensor.Rhi.Passes.{
  eq_rasterizer, eq_cull, eq_func, eq_blend, eq_bool, RasterizerMode, fill, wireframe, CullMode,
  cull_none, cull_back, cull_front, DepthFunc, less, equal, less_equal, BlendMode, opaque,
  alpha_blend, RenderPassSpecs, PassContext, Capability, gl_cull_face, gl_depth_test, gl_blend,
  GlConstant, gl_line, gl_fill, gl_back, gl_front, gl_less, gl_equal, gl_lequal, GlCall,
  polygon_mode, cull_face, depth_func, enable, disable, blend_func, depth_mask, depth_test_calls,
  blend_calls, func_calls, rasterizer_calls, cull_calls, set_render_pass_specs, new_pass_context,
  set_passes,
}

-- What the calls so far have asked for.
pub record Pipeline : Type 0 where
  pub polygons : GlConstant
  pub culling : Bool
  pub culled : GlConstant
  pub depth_testing : Bool
  pub comparison : GlConstant
  pub blending : Bool
  pub blends_alpha : Bool
  pub writes_depth : Bool

abbrev pub switch : Pipeline → Capability → Bool → Pipeline
switch p gl_cull_face b = record p { culling = b }
switch p gl_depth_test b = record p { depth_testing = b }
switch p gl_blend b = record p { blending = b }

abbrev pub ask : Pipeline → GlCall → Pipeline
ask p (polygon_mode c) = record p { polygons = c }
ask p (cull_face c) = record p { culled = c }
ask p (depth_func c) = record p { comparison = c }
ask p (enable c) = switch p c true
ask p (disable c) = switch p c false
ask p blend_func = record p { blends_alpha = true }
ask p (depth_mask b) = record p { writes_depth = b }

abbrev pub ask_all : Pipeline → List GlCall → Pipeline
ask_all p [] = p
ask_all p (c ∷ cs) = ask_all (ask p c) cs

abbrev pub constant_of : DepthFunc → GlConstant
constant_of less = gl_less
constant_of equal = gl_equal
constant_of less_equal = gl_lequal

abbrev pub ShowsRasterizer : RasterizerMode → Pipeline → Type 0
ShowsRasterizer fill p = p.polygons ≡ gl_fill
ShowsRasterizer wireframe p = p.polygons ≡ gl_line

abbrev pub ShowsCulling : CullMode → Pipeline → Type 0
ShowsCulling cull_none p = p.culling ≡ false
ShowsCulling cull_back p = (p.culling ≡ true) × (p.culled ≡ gl_back)
ShowsCulling cull_front p = (p.culling ≡ true) × (p.culled ≡ gl_front)

abbrev pub ShowsBlending : BlendMode → Pipeline → Type 0
ShowsBlending opaque p = p.blending ≡ false
ShowsBlending alpha_blend p = (p.blending ≡ true) × (p.blends_alpha ≡ true)

-- All settings but the depth function.
abbrev pub ShowsRest : RenderPassSpecs → Pipeline → Type 0
ShowsRest s p =
    ShowsRasterizer s.rasterizer_mode p
    × ShowsCulling s.cull_mode p
    × (p.depth_testing ≡ s.depth_test)
    × ShowsBlending s.blend_mode p
    × (p.writes_depth ≡ s.depth_write)

-- The pipeline has what the specifications ask for; without a depth test any comparison serves.
abbrev pub Shows : RenderPassSpecs → Pipeline → Type 0
Shows s p = ShowsRest s p × (s.depth_test ≡ true → p.comparison ≡ constant_of s.depth_function)

pub record Agrees (c : PassContext) (p : Pipeline) : Type 0 where
  pub same_function : p.comparison ≡ constant_of c.m_current_specs.depth_function
  pub same_rest : c.m_is_first_context_init ≡ false → ShowsRest c.m_current_specs p

ask_all-append :
    (p : Pipeline) (cs ds : List GlCall) → ask_all p (cs ++ ds) ≡ ask_all (ask_all p cs) ds
ask_all-append p [] ds = refl
ask_all-append p (c ∷ cs) ds = ask_all-append (ask p c) cs ds

abbrev KeepsForRasterizer : Pipeline → Pipeline → Type 0
KeepsForRasterizer p q =
    (q.culling ≡ p.culling)
    × (q.culled ≡ p.culled)
    × (q.depth_testing ≡ p.depth_testing)
    × (q.comparison ≡ p.comparison)
    × (q.blending ≡ p.blending)
    × (q.blends_alpha ≡ p.blends_alpha)
    × (q.writes_depth ≡ p.writes_depth)

abbrev KeepsForCulling : Pipeline → Pipeline → Type 0
KeepsForCulling p q =
    (q.polygons ≡ p.polygons)
    × (q.depth_testing ≡ p.depth_testing)
    × (q.comparison ≡ p.comparison)
    × (q.blending ≡ p.blending)
    × (q.blends_alpha ≡ p.blends_alpha)
    × (q.writes_depth ≡ p.writes_depth)

abbrev KeepsForTest : Pipeline → Pipeline → Type 0
KeepsForTest p q =
    (q.polygons ≡ p.polygons)
    × (q.culling ≡ p.culling)
    × (q.culled ≡ p.culled)
    × (q.comparison ≡ p.comparison)
    × (q.blending ≡ p.blending)
    × (q.blends_alpha ≡ p.blends_alpha)
    × (q.writes_depth ≡ p.writes_depth)

abbrev KeepsForFunction : Pipeline → Pipeline → Type 0
KeepsForFunction p q =
    (q.polygons ≡ p.polygons)
    × (q.culling ≡ p.culling)
    × (q.culled ≡ p.culled)
    × (q.depth_testing ≡ p.depth_testing)
    × (q.blending ≡ p.blending)
    × (q.blends_alpha ≡ p.blends_alpha)
    × (q.writes_depth ≡ p.writes_depth)

abbrev KeepsForBlending : Pipeline → Pipeline → Type 0
KeepsForBlending p q =
    (q.polygons ≡ p.polygons)
    × (q.culling ≡ p.culling)
    × (q.culled ≡ p.culled)
    × (q.depth_testing ≡ p.depth_testing)
    × (q.comparison ≡ p.comparison)
    × (q.writes_depth ≡ p.writes_depth)

abbrev KeepsForMask : Pipeline → Pipeline → Type 0
KeepsForMask p q =
    (q.polygons ≡ p.polygons)
    × (q.culling ≡ p.culling)
    × (q.culled ≡ p.culled)
    × (q.depth_testing ≡ p.depth_testing)
    × (q.comparison ≡ p.comparison)
    × (q.blending ≡ p.blending)
    × (q.blends_alpha ≡ p.blends_alpha)

rasterizer_stage :
    (p : Pipeline) (first : Bool) (new old : RasterizerMode)
    → (first ≡ false → ShowsRasterizer old p)
    → let q =
        ask_all p (if first || not (eq_rasterizer new old) then rasterizer_calls new else []) in
      ShowsRasterizer new q × KeepsForRasterizer p q
rasterizer_stage p first new old h = ground arith

culling_stage :
    (p : Pipeline) (first : Bool) (new old : CullMode)
    → (first ≡ false → ShowsCulling old p)
    → let q = ask_all p (if first || not (eq_cull new old) then cull_calls new else []) in
      ShowsCulling new q × KeepsForCulling p q
culling_stage p first new old h = ground arith

test_stage :
    (p : Pipeline) (first new old : Bool)
    → (first ≡ false → p.depth_testing ≡ old)
    → let q = ask_all p (if first || not (eq_bool new old) then depth_test_calls new else []) in
      (q.depth_testing ≡ new) × KeepsForTest p q
test_stage p first new old h = ground arith

-- With the depth test off the old function stays, in the cache and in the pipeline.
function_stage :
    (p : Pipeline) (first test : Bool) (new old : DepthFunc)
    → p.comparison ≡ constant_of old
    → let change = test && (first || not (eq_func new old)) in
      let q = ask_all p (if change then func_calls new else []) in
      (q.comparison ≡ constant_of (if change then new else old))
      × (test ≡ true → q.comparison ≡ constant_of new)
      × KeepsForFunction p q
function_stage p first test new old h = ground arith

blending_stage :
    (p : Pipeline) (first : Bool) (new old : BlendMode)
    → (first ≡ false → ShowsBlending old p)
    → let q = ask_all p (if first || not (eq_blend new old) then blend_calls new else []) in
      ShowsBlending new q × KeepsForBlending p q
blending_stage p first new old h = ground arith

mask_stage :
    (p : Pipeline) (first new old : Bool)
    → (first ≡ false → p.writes_depth ≡ old)
    → let q = ask_all p (if first || not (eq_bool new old) then depth_mask new ∷ [] else []) in
      (q.writes_depth ≡ new) × KeepsForMask p q
mask_stage p first new old h = ground arith

rasterizer_kept :
    (m : RasterizerMode) (p q : Pipeline)
    → q.polygons ≡ p.polygons
    → ShowsRasterizer m p
    → ShowsRasterizer m q
rasterizer_kept fill p q e h = e ∙ h
rasterizer_kept wireframe p q e h = e ∙ h

culling_kept :
    (m : CullMode) (p q : Pipeline)
    → q.culling ≡ p.culling
    → q.culled ≡ p.culled
    → ShowsCulling m p
    → ShowsCulling m q
culling_kept cull_none p q e f h = e ∙ h
culling_kept cull_back p q e f h = (e ∙ h.0, f ∙ h.1)
culling_kept cull_front p q e f h = (e ∙ h.0, f ∙ h.1)

blending_kept :
    (m : BlendMode) (p q : Pipeline)
    → q.blending ≡ p.blending
    → q.blends_alpha ≡ p.blends_alpha
    → ShowsBlending m p
    → ShowsBlending m q
blending_kept opaque p q e f h = e ∙ h
blending_kept alpha_blend p q e f h = (e ∙ h.0, f ∙ h.1)

module _ (c : PassContext) (s : RenderPassSpecs) (p : Pipeline) (h : Agrees c p) where
  abbrev first : Bool
  first = c.m_is_first_context_init

  abbrev old : RenderPassSpecs
  old = c.m_current_specs

  abbrev new_function : Bool
  new_function = s.depth_test && (first || not (eq_func s.depth_function old.depth_function))

  -- The pipeline after each block of the function.
  abbrev b1 : List GlCall
  b1 =
      if first || not (eq_rasterizer s.rasterizer_mode old.rasterizer_mode)
      then rasterizer_calls s.rasterizer_mode
      else []

  abbrev p1 : Pipeline
  p1 = ask_all p b1

  abbrev b2 : List GlCall
  b2 = if first || not (eq_cull s.cull_mode old.cull_mode) then cull_calls s.cull_mode else []

  abbrev p2 : Pipeline
  p2 = ask_all p1 b2

  abbrev b3 : List GlCall
  b3 =
      if first || not (eq_bool s.depth_test old.depth_test)
      then depth_test_calls s.depth_test
      else []

  abbrev p3 : Pipeline
  p3 = ask_all p2 b3

  abbrev b4 : List GlCall
  b4 = if new_function then func_calls s.depth_function else []

  abbrev p4 : Pipeline
  p4 = ask_all p3 b4

  abbrev b5 : List GlCall
  b5 = if first || not (eq_blend s.blend_mode old.blend_mode) then blend_calls s.blend_mode else []

  abbrev p5 : Pipeline
  p5 = ask_all p4 b5

  abbrev b6 : List GlCall
  b6 =
      if first || not (eq_bool s.depth_write old.depth_write)
      then depth_mask s.depth_write ∷ []
      else []

  abbrev p6 : Pipeline
  p6 = ask_all p5 b6

  calls_lem : ask_all p (set_render_pass_specs c s).0 ≡ p6
  unfolding set_render_pass_specs
  calls_lem =
      ask_all-append p b1 (b2 ++ (b3 ++ (b4 ++ (b5 ++ b6))))
      ∙ (ask_all-append p1 b2 (b3 ++ (b4 ++ (b5 ++ b6)))
          ∙ (ask_all-append p2 b3 (b4 ++ (b5 ++ b6))
              ∙ (ask_all-append p3 b4 (b5 ++ b6) ∙ ask_all-append p4 b5 b6)))

  p6-Shows :
      ShowsRest s p6
      × (s.depth_test ≡ true → p6.comparison ≡ constant_of s.depth_function)
      × (p6.comparison
          ≡ constant_of (if new_function then s.depth_function else old.depth_function))
  p6-Shows =
      let f1 =
        rasterizer_stage p first s.rasterizer_mode old.rasterizer_mode (λ e. (h.same_rest e).0) in
      let k1 = f1.1 in
      let f2 =
        culling_stage p1 first s.cull_mode old.cull_mode
          (λ e. culling_kept old.cull_mode p p1 k1.0 k1.1 (h.same_rest e).1) in
      let k2 = f2.1 in
      let f3 =
        test_stage p2 first s.depth_test old.depth_test (λ e. k2.1 ∙ (k1.2 ∙ (h.same_rest e).2)) in
      let k3 = f3.1 in
      let f4 =
        function_stage p3 first s.depth_test s.depth_function old.depth_function
          (k3.3 ∙ (k2.2 ∙ (k1.3 ∙ h.same_function))) in
      let k4 = f4.2 in
      let f5 = blending_stage p4 first s.blend_mode old.blend_mode (λ e.
        blending_kept old.blend_mode p p4 (k4.4 ∙ (k3.4 ∙ (k2.3 ∙ k1.4)))
          (k4.5 ∙ (k3.5 ∙ (k2.4 ∙ k1.5))) (h.same_rest e).3) in
      let k5 = f5.1 in
      let f6 =
        mask_stage p5 first s.depth_write old.depth_write
          (λ e. k5.5 ∙ (k4.6 ∙ (k3.6 ∙ (k2.5 ∙ (k1.6 ∙ (h.same_rest e).4))))) in
      let k6 = f6.1 in
      (
        (
          rasterizer_kept s.rasterizer_mode p1 p6 (k6.0 ∙ (k5.0 ∙ (k4.0 ∙ (k3.0 ∙ k2.0)))) f1.0,
          culling_kept s.cull_mode p2 p6 (k6.1 ∙ (k5.1 ∙ (k4.1 ∙ k3.1)))
              (k6.2 ∙ (k5.2 ∙ (k4.2 ∙ k3.2))) f2.0,
          k6.3 ∙ (k5.3 ∙ (k4.3 ∙ f3.0)),
          blending_kept s.blend_mode p5 p6 k6.5 k6.6 f5.0,
          f6.0,
        ),
        (λ on. k6.4 ∙ (k5.4 ∙ f4.1 on)),
        k6.4 ∙ (k5.4 ∙ f4.0),
      )

  -- The cache agrees with the pipeline again, which has what is asked for.
  set_render_pass_specs-Agrees :
      Agrees (set_render_pass_specs c s).1 (ask_all p (set_render_pass_specs c s).0)
      × Shows s (ask_all p (set_render_pass_specs c s).0)
  unfolding set_render_pass_specs
  set_render_pass_specs-Agrees =
      let (rest, function, cached) = p6-Shows in
      (
        record {
          same_function =
              subst
                (λ q.
                  q.comparison
                  ≡ constant_of (if new_function then s.depth_function else old.depth_function))
                (sym calls_lem) cached;
          same_rest = λ e. subst (λ q. ShowsRest s q) (sym calls_lem) rest;
        },
        subst (λ q. Shows s q) (sym calls_lem) (rest, function),
      )

set_passes-Agrees :
    (c : PassContext) (ss : List RenderPassSpecs) (p : Pipeline)
    → Agrees c p
    → Agrees (set_passes c ss).1 (ask_all p (set_passes c ss).0)
unfolding set_passes
set_passes-Agrees c [] p h = h
set_passes-Agrees c (s ∷ ss) p h =
    let d = (set_render_pass_specs c s).1 in
    let calls = (set_render_pass_specs c s).0 in
    subst (λ q. Agrees (set_passes d ss).1 q) (sym (ask_all-append p calls (set_passes d ss).0))
      (set_passes-Agrees d ss (ask_all p calls) (set_render_pass_specs-Agrees c s p h).0)

-- Whatever passes came before on a new context, after setRenderPassSpecs the calls so far have asked
-- for all settings of its specifications, though only changes are sent; the depth function where
-- the depth test is on. OpenGL's comparison has to be GL_LESS at the start, as it is by default.
pub set_passes-Shows :
    (ss : List RenderPassSpecs) (s : RenderPassSpecs) (p : Pipeline)
    → p.comparison ≡ gl_less
    → let (calls, c) = set_passes new_pass_context ss in
      Shows s (ask_all p (calls ++ (set_render_pass_specs c s).0))
unfolding new_pass_context
set_passes-Shows ss s p h =
    let (calls, c) = set_passes new_pass_context ss in
    subst (λ q. Shows s q) (sym (ask_all-append p calls (set_render_pass_specs c s).0))
      (set_render_pass_specs-Agrees c s (ask_all p calls) (
        set_passes-Agrees new_pass_context ss p
          (record { same_function = h; same_rest = λ e. cc e }))).1
