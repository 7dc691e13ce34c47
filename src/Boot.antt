-- ===== src/Boot.antt =====
-- internal/boot: the order in which the engine starts.
pub mod Sequence
pub mod Order
pub mod Complete
pub mod Shape
