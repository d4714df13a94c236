-- ===== src/Sandbox.antt =====
-- src/sandbox/: one process run under limits, and the parts that bound and supervise it.
pub mod Config
pub mod Result
pub mod Admission
pub mod Supervisor
pub mod Reaper
pub mod Execute
pub mod Kernel
pub mod Fs
pub mod Seccomp
pub mod Child
pub mod Cgroup
pub mod Examples
