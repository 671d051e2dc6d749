-- ===== src/Shlab.antt =====
-- shlab/tsh.c, a tiny shell with job control.
pub mod Jobs
pub mod Parse
pub mod Shell
