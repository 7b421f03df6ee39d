-- ===== src/Vfs.antt =====
-- src/syscall/vfs.c: the file descriptors of a process, mount points, and the resolution of paths.
pub mod Descriptors
pub mod Mounts
pub mod Paths
pub mod Fork
