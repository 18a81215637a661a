-- ===== src/Bits.antt =====
-- `^`, `|` and `&` on unsigned words, at every width. Nothing of the program stands here.
pub mod Step
pub mod Xor
pub mod Or
pub mod Mask
