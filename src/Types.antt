-- ===== src/Types.antt =====
-- The enumerations and structures of src/includes/cfstructs.h, one child for each group.
pub mod Tags
pub mod Commands
pub mod Structs
