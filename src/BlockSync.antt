-- ===== src/BlockSync.antt =====
-- src/rds/block_sync.c and block_sync.h: from demodulated bits to groups of four RDS blocks.
-- `Code` is the block code, `Correction` the two error correctors, `Stream` the state of the
-- stream and its operations.
pub mod Code
pub mod Correction
pub mod Stream
mod Runs
