-- ===== src/BlockSync/Code/Linear.antt =====
-- src/rds/block_sync.c, `rds_calculate_syndrome`: it is linear over exclusive or.
use mpxcast.Prelude.{
  ℕ, zero, suc, ◌+◌, ◌-◌, ◌*◌, ◌%◌, ◌<◌, bit_xor, get_or, ◌≡◌, refl, ap, ◌∙◌, arith, ◌>>>◌,
}
use mpxcast.Bits.Xor.{xor-bit, xor_middle, xor-zero, zero-xor, xor_self}
use mpxcast.BlockSync.Code.{
  Offset, a, b, c, c_prime, d, invalid, parity_check_matrix, syndrome_loop, calculate_syndrome,
  get_offset_for_syndrome, offset_word,
}

-- A row times a sum of bits without carry.
row_mul : (m x y : ℕ) → x < 2 → y < 2 → m * ((x + y) % 2) ≡ bit_xor (m * x) (m * y)
row_mul m zero zero p q = omega (arith, xor_self (m * 0))
row_mul m zero (suc zero) p q =
    omega (arith, ap (λ t. bit_xor t (m * 1)) {x = m * 0} {y = 0} (omega arith), zero-xor (m * 1))
row_mul m (suc zero) zero p q =
    omega (arith, ap (bit_xor (m * 1)) {x = m * 0} {y = 0} (omega arith), xor-zero (m * 1))
row_mul m (suc zero) (suc zero) p q = omega (arith, xor_self (m * 1))
row_mul m zero (suc (suc y)) p q = absurd (omega arith)
row_mul m (suc zero) (suc (suc y)) p q = absurd (omega arith)
row_mul m (suc (suc x)) y p q = absurd (omega arith)

row_xor :
    (m k v w : ℕ)
    → m * ((bit_xor v w >>> k) % 2) ≡ bit_xor (m * ((v >>> k) % 2)) (m * ((w >>> k) % 2))
row_xor m k v w =
    ap (λ t. m * t) (xor-bit k v w)
    ∙ row_mul m ((v >>> k) % 2) ((w >>> k) % 2) (omega arith) (omega arith)

syndrome_loop-xor :
    (n k v w r s : ℕ)
    → syndrome_loop n k (bit_xor v w) (bit_xor r s)
      ≡ bit_xor (syndrome_loop n k v r) (syndrome_loop n k w s)
unfolding syndrome_loop
syndrome_loop-xor zero k v w r s = refl
syndrome_loop-xor (suc n) k v w r s =
    let m = get_or parity_check_matrix (25 - k) 0 in
    ap (syndrome_loop n (k + 1) (bit_xor v w)) (
      ap (bit_xor (bit_xor r s)) (row_xor m k v w)
      ∙ xor_middle r s (m * ((v >>> k) % 2)) (m * ((w >>> k) % 2)))
    ∙ syndrome_loop-xor n (k + 1) v w (bit_xor r (m * ((v >>> k) % 2)))
        (bit_xor s (m * ((w >>> k) % 2)))

-- The syndrome of an exclusive or is the exclusive or of the syndromes, for all words.
pub calculate_syndrome-xor :
    (v w : ℕ)
    → calculate_syndrome (bit_xor v w) ≡ bit_xor (calculate_syndrome v) (calculate_syndrome w)
unfolding calculate_syndrome
calculate_syndrome-xor v w = syndrome_loop-xor 26 0 v w 0 0

-- The table of offsets agrees with the code: the syndrome of an offset word names its offset.
pub offset-of-offset_word :
    (o : Offset) → get_offset_for_syndrome (calculate_syndrome (offset_word o)) ≡ o
unfolding calculate_syndrome get_offset_for_syndrome offset_word
offset-of-offset_word invalid = refl
offset-of-offset_word a = refl
offset-of-offset_word b = refl
offset-of-offset_word c = refl
offset-of-offset_word c_prime = refl
offset-of-offset_word d = refl
