-- ===== src/Vfs.antt =====
-- srv/vfs: the file system server.
--
-- A string is the list of its characters before the NUL. The memory of the objects is not modelled: a vnode and an
-- open file are values, a superblock and an inode are known by their address and their number.
pub mod Path
pub mod Vnode
pub mod Rootfs
pub mod Bootfs
pub mod Shm
pub mod Server
pub mod Drivers
pub mod Main
mod Examples
