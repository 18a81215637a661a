-- ===== src/Bits/Or.antt =====
-- Inclusive or where the two words share no bit: it is their sum.
use native.Mathlib.Nat.{pow-suc}
use mpxcast.Prelude.{
  ℕ, zero, suc, ◌+◌, ◌*◌, ◌/◌, ◌%◌, ◌^◌, ◌≤◌, ◌<◌, bit_or, ◌≡◌, ap, ◌∙◌, Bool, true, false, arith,
  u32, ◌<<<◌, of_bool,
}
use mpxcast.Bits.Step.{bit_or_step}

or-zero_below : (n a : ℕ) → a ≤ n → bit_or a 0 ≡ a
or-zero_below zero a h = ap (λ t. bit_or t 0) {x = a} {y = 0} (omega arith) ∙ omega arith
or-zero_below (suc n) a h = omega (arith, bit_or_step a 0, or-zero_below n (a / 2) (omega arith))

pub or-zero : (a : ℕ) → bit_or a 0 ≡ a
or-zero a = or-zero_below a a (omega arith)

mul-two-pow : (q k : ℕ) → q * 2 ^ suc k ≡ 2 * (q * 2 ^ k)
mul-two-pow q k = omega (arith, ap (λ (t : ℕ). q * t) (pow-suc 2 k))

-- A word whose `k` low bits are clear takes up a word of `k` bits.
pub or_fields : (k q r : ℕ) → r < 2 ^ k → bit_or (q * 2 ^ k) r ≡ q * 2 ^ k + r
or_fields zero q r h =
    ap (bit_or (q * 2 ^ 0)) {x = r} {y = 0} (omega arith) ∙ or-zero (q * 2 ^ 0) ∙ omega arith
or_fields (suc k) q r h = omega (
  arith,
  bit_or_step (q * 2 ^ suc k) r,
  ap (λ t. bit_or t (r / 2)) {x = q * 2 ^ suc k / 2} {y = q * 2 ^ k}
      (omega (arith, mul-two-pow q k)),
  mul-two-pow q k,
  or_fields k q (r / 2) (omega (arith, pow-suc 2 k)),
)

-- The bit shifted into a 32-bit register.
pub shift_in_bit : (x : ℕ) (b : Bool) → bit_or (u32 (x <<< 1)) (of_bool b) ≡ u32 (x * 2 + of_bool b)
shift_in_bit x b =
    ap (λ t. bit_or t (of_bool b)) {x = u32 (x <<< 1)} {y = x % 2 ^ 31 * 2 ^ 1} (omega arith)
    ∙ or_fields 1 (x % 2 ^ 31) (of_bool b) (below b)
    ∙ omega (arith, below b)
  where
    below : (c : Bool) → of_bool c < 2 ^ 1
    below true = omega arith
    below false = omega arith
