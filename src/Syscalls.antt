-- ===== src/Syscalls.antt =====
-- filesIWorkedOn/syscalls.c: the system calls.
pub mod Files
pub mod Arguments
