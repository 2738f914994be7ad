-- ===== src/User.antt =====
-- The programs of syscalls/ over the system calls of the kernel.
pub mod Library
pub mod Program
pub mod Syserr
pub mod Ls
pub mod Shell
pub mod Counter
pub mod Hello
pub mod Pingpong
pub mod Cat
