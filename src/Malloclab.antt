-- ===== src/Malloclab.antt =====
-- malloclab: the simulated heap memlib.c, the checks of the driver mdriver.c, the allocator
-- mm-firstfit.c and the measurement fcyc.c.
pub mod Memlib
pub mod Ranges
pub mod FirstFit
pub mod Driver
pub mod Sampler
pub mod Util
pub mod Clock
pub mod Speed
pub mod Trace
pub mod FreeList
pub mod Explicit
