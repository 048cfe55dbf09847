-- ===== src/Programs.antt =====
-- The programs of src/bin around the library.
pub mod Device
pub mod Controller
pub mod Arguments
