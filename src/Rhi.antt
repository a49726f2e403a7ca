-- ===== src/Rhi.antt =====
-- The rendering hardware interface of modules/renderer_rhi and its OpenGL implementation. A call of
-- OpenGL is a value, and what the code does is the list of its calls.
pub mod Passes
pub mod Framebuffer
pub mod Material
use esp32_particulate_sensor.Prelude.{ℕ}
