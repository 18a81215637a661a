-- ===== src/Parser/Bits.antt =====
-- src/rds/parser.c: the masks of the characters and segments seen so far, as sets of indices.
use mpxcast.Prelude.{
  ℕ, ◌-◌, ◌*◌, ◌^◌, ◌<◌, bit_and, bit_or, ◌≡◌, sym, ap, ◌∙◌, ◌≢◌, ◌⊎◌, inl, inr, true, not, arith,
  ◌==◌, ◌<<<◌,
}
use mpxcast.Bits.Mask.{bit, and-mask, or-bit, one-bit_self, one-bit_ne, all_ones, two-pow_pos}
use mpxcast.Parser.{has_bit}

bit-cases : (mask i : ℕ) → (bit mask i ≡ 0) ⊎ (bit mask i ≡ 1)
bit-cases mask i = omega arith

pub has_bit→bit : (mask i : ℕ) → has_bit mask i ≡ true → bit mask i ≡ 1
unfolding has_bit
has_bit→bit mask i h = elim (bit-cases mask i) [
  | inl e ↦
      let none : bit_and mask (1 <<< i) ≡ 0 =
        omega (arith, and-mask mask i, ap (λ (t : ℕ). t * 2 ^ i) e) in
      absurd (ground (arith, none))
  | inr e ↦ e
]

pub bit→has_bit : (mask i : ℕ) → bit mask i ≡ 1 → has_bit mask i ≡ true
unfolding has_bit
bit→has_bit mask i h =
    let one : bit_and mask (1 <<< i) ≡ 2 ^ i =
      omega (arith, and-mask mask i, ap (λ (t : ℕ). t * 2 ^ i) h) in
    ground (arith, one, two-pow_pos i)

has_bit-congruent : (a b i : ℕ) → bit a i ≡ bit b i → has_bit a i ≡ has_bit b i
unfolding has_bit
has_bit-congruent a b i e =
    ap (λ t. not (t == 0)) (and-mask a i ∙ ap (λ (t : ℕ). t * 2 ^ i) e ∙ sym (and-mask b i))

-- Insertion: the bit is set, the others stay.
pub has_bit-insert_self : (mask i : ℕ) → has_bit (bit_or mask (1 <<< i)) i ≡ true
has_bit-insert_self mask i =
    bit→has_bit _ i (omega (arith, or-bit i mask (1 <<< i), one-bit_self i))

pub has_bit-insert_ne : (mask i j : ℕ) → i ≢ j → has_bit (bit_or mask (1 <<< i)) j ≡ has_bit mask j
has_bit-insert_ne mask i j ne =
    has_bit-congruent _ mask j (omega (arith, or-bit j mask (1 <<< i), one-bit_ne i j ne))

-- The full mask is the set of all indices.
pub has_bit_all :
    (n mask : ℕ) → mask < 2 ^ n → ((i : ℕ) → i < n → has_bit mask i ≡ true) → mask ≡ 2 ^ n - 1
has_bit_all n mask h seen = all_ones n mask h (λ i below. has_bit→bit mask i (seen i below))
