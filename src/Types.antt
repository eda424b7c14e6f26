-- ===== src/Types.antt =====
-- frontend/src/lib/types.ts. A number that may have a fraction is of the parameter type `Num`;
-- a field that may be absent or null is an `Option`.
pub mod Node
pub mod Monitoring
pub mod Site
pub mod Task
pub mod Traffic
pub mod Security
pub mod Settings
pub mod Console
