-- ===== src/Outside.antt =====
-- The boundary of the operator: the calls that leave it, and the kinds of their effects.
pub mod Call
pub mod Effect
