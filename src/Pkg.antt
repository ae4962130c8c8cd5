-- ===== src/Pkg.antt =====
-- pkg/: helpers that the program's parts share.
pub mod Queue
