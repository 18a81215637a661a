-- ===== src/Bits/Step.antt =====
-- The bitwise operations by their lowest digit, with the fuel of their definition dropped.
use Prim.Native.Nat.{digits, bitwise, differ, bit_and-bitwise, bit_or-bitwise, bit_xor-bitwise}
use native.Mathlib.Decide.{ℕ_discrete}
use mpxcast.Prelude.{
  ℕ, zero, suc, ◌+◌, ◌*◌, ◌/◌, ◌%◌, ◌≤◌, ◌<◌, min, max, bit_and, bit_or, bit_xor, ◌≡◌, refl, ap,
  ◌∙◌, arith,
}

-- `rest` is what is left once the first number has run out, `op` the operation on two digits.
module _ (rest : ℕ → ℕ) (op : ℕ → ℕ → ℕ) where
  one_more : (n a b : ℕ) → a ≤ n → digits rest op (suc n) a b ≡ digits rest op n a b
  one_more n zero b h = both n
    where
      both : (k : ℕ) → digits rest op (suc k) 0 b ≡ digits rest op k 0 b
      both zero = refl
      both (suc k) = refl
  one_more zero (suc a) b h = absurd (omega arith)
  one_more (suc n) (suc a) b h =
      ap (λ (t : ℕ). t * 2 + op (suc a % 2) (b % 2)) (one_more n (suc a / 2) (b / 2) (omega arith))

  enough : (n a b : ℕ) → a ≤ n → digits rest op n a b ≡ bitwise rest op a b
  enough zero zero b h = refl
  enough zero (suc a) b h = absurd (omega arith)
  enough (suc n) a b h = elim (ℕ_discrete a (suc n)) [
    | yes e ↦ ap (λ k. digits rest op k a b) {x = suc n} {y = a} (omega arith)
    | no ne ↦ one_more n a b (omega arith) ∙ enough n a b (omega arith)
  ]

  lowest_digit :
      (a b : ℕ)
      → bitwise rest op (suc a) b ≡ bitwise rest op (suc a / 2) (b / 2) * 2 + op (suc a % 2) (b % 2)
  lowest_digit a b =
      ap (λ (t : ℕ). t * 2 + op (suc a % 2) (b % 2)) (enough a (suc a / 2) (b / 2) (omega arith))

-- The lowest digit of any operation that keeps it where the first number is 0.
lowest_digits :
    (rest : ℕ → ℕ) (op : ℕ → ℕ → ℕ)
    → ((y : ℕ) → rest y ≡ op 0 (y % 2) + 2 * rest (y / 2))
    → (x y : ℕ) → bitwise rest op x y ≡ op (x % 2) (y % 2) + 2 * bitwise rest op (x / 2) (y / 2)
lowest_digits rest op empty zero y = empty y
lowest_digits rest op empty (suc x) y = omega (arith, lowest_digit rest op x y)

pub bit_or_step : (x y : ℕ) → bit_or x y ≡ max (x % 2) (y % 2) + 2 * bit_or (x / 2) (y / 2)
bit_or_step x y = simp bit_or-bitwise (lowest_digits (λ k. k) max (λ k. omega arith) x y)

pub bit_and_step : (x y : ℕ) → bit_and x y ≡ min (x % 2) (y % 2) + 2 * bit_and (x / 2) (y / 2)
bit_and_step x y = simp bit_and-bitwise (lowest_digits (λ _. 0) min (λ k. omega arith) x y)

differ_digits : (x y : ℕ) → x < 2 → y < 2 → differ x y ≡ (x + y) % 2
differ_digits zero zero p q = refl
differ_digits zero (suc zero) p q = refl
differ_digits (suc zero) zero p q = refl
differ_digits (suc zero) (suc zero) p q = refl
differ_digits zero (suc (suc y)) p q = absurd (omega arith)
differ_digits (suc zero) (suc (suc y)) p q = absurd (omega arith)
differ_digits (suc (suc x)) y p q = absurd (omega arith)

-- The digit of an exclusive or is the sum of the two digits without its carry.
pub bit_xor_step : (x y : ℕ) → bit_xor x y ≡ (x + y) % 2 + 2 * bit_xor (x / 2) (y / 2)
bit_xor_step x y = simp bit_xor-bitwise (
    omega (
      arith,
      lowest_digits (λ k. k) differ
          (λ k. omega (arith, differ_digits 0 (k % 2) (omega arith) (omega arith))) x y,
      differ_digits (x % 2) (y % 2) (omega arith) (omega arith),
    ))
