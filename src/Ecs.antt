-- ===== src/Ecs.antt =====
-- modules/core/a_registry.hpp: the component pools and the registry that owns them.
pub mod Pool
pub mod Registry
pub mod Tests
