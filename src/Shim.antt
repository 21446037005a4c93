-- ===== src/Shim.antt =====
-- The wrapper of xe (src/shim/xe_wrapper.py).
pub mod Host
pub mod Wrapper
pub mod WrapperLaws
