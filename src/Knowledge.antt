-- ===== src/Knowledge.antt =====
-- internal/knowledge: which evidence a decision of the casekeeper may grant to which actor.
pub mod Preflight
pub mod Authorize
pub mod Grounds
pub mod Sanctioned
