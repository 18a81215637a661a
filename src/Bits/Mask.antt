-- ===== src/Bits/Mask.antt =====
-- A word as a set of bits: the test of one bit, its insertion, and the full word.
use native.Mathlib.Nat.{pow-suc}
use mpxcast.Prelude.{
  ℕ, zero, suc, ◌-◌, ◌*◌, ◌/◌, ◌%◌, ◌^◌, ◌≤◌, ◌<◌, max, bit_and, bit_or, ◌≡◌, refl, sym, ap, ap₂,
  ◌∙◌, ◌≢◌, arith, ◌<<<◌,
}
use mpxcast.Bits.Step.{bit_and_step, bit_or_step}
use mpxcast.Bits.Xor.{div-two-pow}

-- The bit `i` of a word, as 0 or 1.
abbrev pub bit : ℕ → ℕ → ℕ
bit m i = m / 2 ^ i % 2

pub bit-suc : (m i : ℕ) → bit m (suc i) ≡ bit (m / 2) i
bit-suc m i = ap (λ t. t % 2) (div-two-pow m i)

half-pow : (i : ℕ) → (1 <<< suc i) / 2 ≡ 1 <<< i
half-pow i = omega (arith, pow-suc 2 i)

even-pow : (i : ℕ) → (1 <<< suc i) % 2 ≡ 0
even-pow i = omega (arith, pow-suc 2 i)

and-zero_below : (n a : ℕ) → a ≤ n → bit_and a 0 ≡ 0
and-zero_below zero a h = ap (λ t. bit_and t 0) {x = a} {y = 0} (omega arith)
and-zero_below (suc n) a h = omega (arith, bit_and_step a 0, and-zero_below n (a / 2) (omega arith))

and-zero : (a : ℕ) → bit_and a 0 ≡ 0
and-zero a = and-zero_below a a (omega arith)

pub two-pow_pos : (n : ℕ) → 0 < 2 ^ n
two-pow_pos zero = omega arith
two-pow_pos (suc n) = omega (arith, pow-suc 2 n, two-pow_pos n)

pub and-mask : (m i : ℕ) → bit_and m (1 <<< i) ≡ bit m i * 2 ^ i
and-mask m zero = omega (arith, bit_and_step m 1, and-zero (m / 2))
and-mask m (suc i) = omega (
  arith,
  bit_and_step m (1 <<< suc i),
  ap (λ t. bit_and (m / 2) t) (half-pow i),
  even-pow i,
  and-mask (m / 2) i,
  bit-suc m i,
  pow-suc 2 i,
  ap (λ (t : ℕ). bit (m / 2) i * t) (pow-suc 2 i),
  ap (λ (t : ℕ). t * 2 ^ suc i) (bit-suc m i),
)

pub or-bit : (k a b : ℕ) → bit (bit_or a b) k ≡ max (bit a k) (bit b k)
or-bit zero a b = omega (arith, bit_or_step a b)
or-bit (suc k) a b =
    bit-suc (bit_or a b) k
    ∙ ap (λ t. bit t k) {y = bit_or (a / 2) (b / 2)} (omega (arith, bit_or_step a b))
    ∙ or-bit k (a / 2) (b / 2)
    ∙ sym (ap₂ max (bit-suc a k) (bit-suc b k))

pub zero-bit : (k : ℕ) → bit 0 k ≡ 0
zero-bit zero = omega arith
zero-bit (suc k) = bit-suc 0 k ∙ zero-bit k

pub one-bit_self : (i : ℕ) → bit (1 <<< i) i ≡ 1
one-bit_self zero = omega arith
one-bit_self (suc i) = bit-suc (1 <<< suc i) i ∙ ap (λ t. bit t i) (half-pow i) ∙ one-bit_self i

pub one-bit_ne : (i j : ℕ) → i ≢ j → bit (1 <<< i) j ≡ 0
one-bit_ne zero zero h = absurd (h refl)
one-bit_ne zero (suc j) h = bit-suc 1 j ∙ zero-bit j
one-bit_ne (suc i) zero h = omega (arith, even-pow i)
one-bit_ne (suc i) (suc j) h =
    bit-suc (1 <<< suc i) j ∙ ap (λ t. bit t j) (half-pow i) ∙ one-bit_ne i j (λ e. h (ap suc e))

-- A word of `n` bits that are all set.
pub all_ones : (n m : ℕ) → m < 2 ^ n → ((i : ℕ) → i < n → bit m i ≡ 1) → m ≡ 2 ^ n - 1
all_ones zero m h bits = omega arith
all_ones (suc n) m h bits = omega (
  arith,
  all_ones n (m / 2) (omega (arith, pow-suc 2 n))
      (λ i below. sym (bit-suc m i) ∙ bits (suc i) (omega arith)),
  bits 0 (omega arith),
  pow-suc 2 n,
  two-pow_pos n,
)

pub ones-bit : (n i : ℕ) → i < n → bit (2 ^ n - 1) i ≡ 1
ones-bit zero i h = absurd (omega arith)
ones-bit (suc n) zero h = omega (arith, pow-suc 2 n, two-pow_pos n)
ones-bit (suc n) (suc i) h =
    bit-suc (2 ^ suc n - 1) i
    ∙ ap (λ t. bit t i) {y = 2 ^ n - 1} (omega (arith, pow-suc 2 n, two-pow_pos n))
    ∙ ones-bit n i (omega arith)

-- The bit operations keep words inside their width.
pub or-lt : (k a b : ℕ) → a < 2 ^ k → b < 2 ^ k → bit_or a b < 2 ^ k
or-lt zero a b p q =
    let ea : a ≡ 0 = omega arith in let eb : b ≡ 0 = omega arith in omega (arith, ap₂ bit_or ea eb)
or-lt (suc k) a b p q = omega (
  arith,
  bit_or_step a b,
  pow-suc 2 k,
  or-lt k (a / 2) (b / 2) (omega (arith, pow-suc 2 k)) (omega (arith, pow-suc 2 k)),
)
