-- ===== src/Content.antt =====
-- internal/content: references to stored artifacts. The object store itself is a parameter of the
-- components that use it.
pub mod Ref
pub mod Store
pub mod Roundtrip
pub mod Distinct
pub mod Failures
pub mod Artifacts
