-- ===== src/Kernel.antt =====
-- The kernel (kernel/).
pub mod List
pub mod FreeList
pub mod State
pub mod Call
pub mod Frame
pub mod Queue
pub mod Resource
pub mod Sem
pub mod Memory
pub mod Aspace
mod Examples
pub mod Port
pub mod Team
