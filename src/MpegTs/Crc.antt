-- ===== src/MpegTs/Crc.antt =====
-- src/stream/mux_mpegts.c: `stream_mux_mpegts_crc32`, and the check that a receiver makes.
use mpxcast.Prelude.{
  ℕ, zero, suc, ◌*◌, ◌/◌, ◌%◌, ◌^◌, ◌<◌, bit_and, bit_xor, ◌≡◌, refl, sym, ap, ◌∙◌, not, List, [],
  ◌∷◌, ◌++◌, arith, ◌==◌, if◌then◌else◌, if_both, u8, u32, ◌>>>◌, ◌<<<◌,
}
use native.Mathlib.Nat.{pow-suc}
use mpxcast.Bits.Mask.{and-mask, two-pow_pos}
use mpxcast.Bits.Xor.{xor_high, xor-lt}

-- One round of the inner loop.
unfoldable pub crc_bit : ℕ → ℕ
crc_bit crc =
    if not (bit_and crc 0x80000000 == 0)
    then bit_xor (u32 (crc <<< 1)) 0x04c11db7
    else u32 (crc <<< 1)

-- `n` rounds.
unfoldable pub crc_bits : ℕ → ℕ → ℕ
unfolding crc_bit
crc_bits zero crc = crc
crc_bits (suc n) crc = crc_bits n (crc_bit crc)

-- The loop over the bytes.
unfoldable pub crc_loop : ℕ → List ℕ → ℕ
crc_loop crc [] = crc
crc_loop crc (byte ∷ data_bytes) =
    crc_loop (crc_bits 8 (bit_xor crc (u32 (byte <<< 24)))) data_bytes

unfoldable pub crc32 : List ℕ → ℕ
crc32 data_bytes = crc_loop 0xffffffff data_bytes

-- The four bytes that are stored behind a section, the highest first.
abbrev pub crc_bytes : ℕ → List ℕ
crc_bytes crc = u8 (crc >>> 24) ∷ u8 (crc >>> 16) ∷ u8 (crc >>> 8) ∷ u8 crc ∷ []

crc_loop-append :
    (xs ys : List ℕ) (crc : ℕ) → crc_loop crc (xs ++ ys) ≡ crc_loop (crc_loop crc xs) ys
unfolding crc_loop
crc_loop-append [] ys crc = refl
crc_loop-append (x ∷ xs) ys crc = crc_loop-append xs ys _

crc_bit-lt : (crc : ℕ) → crc_bit crc < 2 ^ 32
unfolding crc_bit
crc_bit-lt crc =
    if_both (λ r. r < 2 ^ 32) (not (bit_and crc 0x80000000 == 0)) _ _
      (λ _. xor-lt 32 (u32 (crc <<< 1)) 0x04c11db7 (omega arith) (omega arith)) (λ _. omega arith)

crc_bits-lt : (n crc : ℕ) → crc < 2 ^ 32 → crc_bits n crc < 2 ^ 32
unfolding crc_bits
crc_bits-lt zero crc h = h
crc_bits-lt (suc n) crc h = crc_bits-lt n (crc_bit crc) (crc_bit-lt crc)

crc_loop-lt : (xs : List ℕ) (crc : ℕ) → crc < 2 ^ 32 → crc_loop crc xs < 2 ^ 32
unfolding crc_loop
crc_loop-lt [] crc h = h
crc_loop-lt (x ∷ xs) crc h =
    crc_loop-lt xs _ (crc_bits-lt 8 _ (xor-lt 32 crc (u32 (x <<< 24)) h (omega arith)))

-- A round on a register whose highest bit is clear is a shift.
crc_bit-low : (crc : ℕ) → crc < 2 ^ 31 → crc_bit crc ≡ crc * 2
unfolding crc_bit
crc_bit-low crc h =
    let clear : bit_and crc 0x80000000 ≡ 0 = omega (arith, and-mask crc 31) in
    if_both (λ r. r ≡ crc * 2) (not (bit_and crc 0x80000000 == 0)) _ _
      (λ set_bit. absurd (ground (arith, set_bit, clear))) (λ _. omega arith)

-- Rounds that push no bit out are a longer shift.
crc_bits-low : (n crc : ℕ) → crc * 2 ^ n < 2 ^ 32 → crc_bits n crc ≡ crc * 2 ^ n
unfolding crc_bits
crc_bits-low zero crc h = omega arith
crc_bits-low (suc n) crc h =
    let doubled : crc * 2 ^ suc n ≡ crc * 2 * 2 ^ n =
      grind (arith, ap (λ (t : ℕ). crc * t) (pow-suc 2 n)) in
    ap (crc_bits n)
      (crc_bit-low crc (half_fits crc (2 ^ n) (two-pow_pos n) (omega (arith, h, doubled))))
    ∙ crc_bits-low n (crc * 2) (omega (arith, h, doubled))
    ∙ sym doubled
  where
    half_fits : (c p : ℕ) → 0 < p → c * 2 * p < 2 ^ 32 → c < 2 ^ 31
    half_fits c zero pos h = absurd (omega arith)
    half_fits c (suc p) pos h = grind arith

-- A byte that is the highest of the register takes it out.
byte_step :
    (crc byte next : ℕ)
    → crc < 2 ^ 32
    → byte ≡ crc / 2 ^ 24
    → next ≡ crc % 2 ^ 24 * 2 ^ 8
    → crc_bits 8 (bit_xor crc (u32 (byte <<< 24))) ≡ next
byte_step crc byte next h e f =
    ap (λ t. crc_bits 8 (bit_xor crc t)) {x = u32 (byte <<< 24)} {y = crc / 2 ^ 24 * 2 ^ 24}
      (omega (arith, h, e))
    ∙ ap (crc_bits 8) (xor_high 24 crc)
    ∙ crc_bits-low 8 (crc % 2 ^ 24) (omega arith)
    ∙ sym f

crc_loop-own : (crc : ℕ) → crc < 2 ^ 32 → crc_loop crc (crc_bytes crc) ≡ 0
unfolding crc_loop
crc_loop-own crc h =
    ap (λ r. crc_loop r (u8 (crc >>> 16) ∷ u8 (crc >>> 8) ∷ u8 crc ∷ []))
      (byte_step crc (u8 (crc >>> 24)) (crc % 2 ^ 24 * 2 ^ 8) h (omega (arith, h)) refl)
    ∙ ap (λ r. crc_loop r (u8 (crc >>> 8) ∷ u8 crc ∷ []))
        (byte_step (crc % 2 ^ 24 * 2 ^ 8) (u8 (crc >>> 16)) (crc % 2 ^ 16 * 2 ^ 16) (omega arith)
          (omega arith) (omega arith))
    ∙ ap (λ r. crc_loop r (u8 crc ∷ []))
        (byte_step (crc % 2 ^ 16 * 2 ^ 16) (u8 (crc >>> 8)) (crc % 2 ^ 8 * 2 ^ 24) (omega arith)
          (omega arith) (omega arith))
    ∙ byte_step (crc % 2 ^ 8 * 2 ^ 24) (u8 crc) 0 (omega arith) (omega arith) (omega arith)

-- For every section, the checksum over the section and the four bytes of its checksum is 0, which
-- is the test that a receiver makes.
pub crc32-check : (section : List ℕ) → crc32 (section ++ crc_bytes (crc32 section)) ≡ 0
unfolding crc32
crc32-check section =
    crc_loop-append section (crc_bytes (crc_loop 0xffffffff section)) 0xffffffff
    ∙ crc_loop-own (crc_loop 0xffffffff section) (crc_loop-lt section 0xffffffff (omega arith))
