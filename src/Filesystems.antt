-- ===== src/Filesystems.antt =====
-- crates/ize-lib/src/filesystems: the file systems that the kernel calls, and their observers.
pub mod Observer
pub mod Calls
pub mod Observing
pub mod Backing
pub mod Syscalls
pub mod LibcBacking
pub mod PassthroughFd
pub mod StdFs
pub mod Passthrough
pub mod Recording
pub mod Logging
pub mod Errors
mod Tests
