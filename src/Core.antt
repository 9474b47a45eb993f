-- ===== src/Core.antt =====
-- The core containers and text routines of src/core and include/pup/core.
pub mod HashHex
pub mod Instruction
pub mod Path
pub mod RobinHood
pub mod SortedVec
pub mod StringPool
