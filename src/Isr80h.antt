-- ===== src/Isr80h.antt =====
-- src/isr80h: the system calls, and the functions of src/task/task.c that reach into the memory of a task.
-- `mmu` is the processor's translation of an address under a page directory.
pub mod UserMemory
pub mod Commands
pub mod Register
pub mod Exceptions
mod Tests
