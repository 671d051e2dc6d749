-- ===== src/Cachelab.antt =====
-- cachelab: the cache simulator csim.c and the matrix transposes of trans.c.
pub mod Csim
pub mod Trans
