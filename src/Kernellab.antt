-- ===== src/Kernellab.antt =====
-- kernellab: the kernel module kernellab/kernellab/kernellab.c.
pub mod Pid
