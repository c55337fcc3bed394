-- ===== src/Syscall.antt =====
-- The system calls, kernel/syscall.c: the check of user pointers, the table of open files and the
-- dispatcher. The FAT volume and the scheduler are behind the interfaces of Syscall/Services.
-- `none` stands for an access outside `f->data`, where the source has undefined behaviour.
-- A system call's `(u32)-1` is `u32_max`.
pub mod Services
pub mod Files
pub mod Dispatch
pub mod Range
pub mod Table
pub mod Transfer
pub mod Overrun
mod Tests
