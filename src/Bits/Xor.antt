-- ===== src/Bits/Xor.antt =====
-- Exclusive or as a group of exponent two, and how it acts on the bits and the high part of a word.
use native.Mathlib.Nat.{pow-suc, div-div-eq-div-mul, div-add-mod}
use mpxcast.Prelude.{
  ℕ, zero, suc, ◌+◌, ◌*◌, ◌/◌, ◌%◌, ◌^◌, ◌≤◌, ◌<◌, bit_xor, ◌≡◌, ap, ap₂, sym, ◌∙◌, arith,
}
use mpxcast.Bits.Step.{bit_xor_step}

pub xor-half : (a b : ℕ) → bit_xor a b / 2 ≡ bit_xor (a / 2) (b / 2)
xor-half a b = omega (arith, bit_xor_step a b)

pub xor-parity : (a b : ℕ) → bit_xor a b % 2 ≡ (a + b) % 2
xor-parity a b = omega (arith, bit_xor_step a b)

-- The recursion of the laws below is on a bound of all the words: halving goes below it.
comm_below : (n a b : ℕ) → a ≤ n → b ≤ n → bit_xor a b ≡ bit_xor b a
comm_below zero a b p q = ap₂ bit_xor (omega arith) (omega arith)
comm_below (suc n) a b p q = omega (
  arith,
  bit_xor_step a b,
  bit_xor_step b a,
  comm_below n (a / 2) (b / 2) (omega arith) (omega arith),
)

pub xor_comm : (a b : ℕ) → bit_xor a b ≡ bit_xor b a
xor_comm a b = comm_below (a + b) a b (omega arith) (omega arith)

zero_below : (n a : ℕ) → a ≤ n → bit_xor a 0 ≡ a
zero_below zero a p = ap (λ t. bit_xor t 0) {x = a} {y = 0} (omega arith) ∙ omega arith
zero_below (suc n) a p = omega (arith, bit_xor_step a 0, zero_below n (a / 2) (omega arith))

pub xor-zero : (a : ℕ) → bit_xor a 0 ≡ a
xor-zero a = zero_below a a (omega arith)

pub zero-xor : (a : ℕ) → bit_xor 0 a ≡ a
zero-xor a = xor_comm 0 a ∙ xor-zero a

self_below : (n a : ℕ) → a ≤ n → bit_xor a a ≡ 0
self_below zero a p = ap (λ t. bit_xor t t) {x = a} {y = 0} (omega arith)
self_below (suc n) a p = omega (arith, bit_xor_step a a, self_below n (a / 2) (omega arith))

pub xor_self : (a : ℕ) → bit_xor a a ≡ 0
xor_self a = self_below a a (omega arith)

assoc_below :
    (n a b c : ℕ) → a ≤ n → b ≤ n → c ≤ n → bit_xor (bit_xor a b) c ≡ bit_xor a (bit_xor b c)
assoc_below zero a b c p q r =
    let ea : a ≡ 0 = omega arith in
    let eb : b ≡ 0 = omega arith in
    let ec : c ≡ 0 = omega arith in
    ap₂ bit_xor (ap₂ bit_xor ea eb) ec ∙ sym (ap₂ bit_xor ea (ap₂ bit_xor eb ec))
assoc_below (suc n) a b c p q r = omega (
  arith,
  bit_xor_step (bit_xor a b) c,
  bit_xor_step a (bit_xor b c),
  ap (λ t. bit_xor t (c / 2)) (xor-half a b),
  ap (λ t. bit_xor (a / 2) t) (xor-half b c),
  xor-parity a b,
  xor-parity b c,
  assoc_below n (a / 2) (b / 2) (c / 2) (omega arith) (omega arith) (omega arith),
)

pub xor_assoc : (a b c : ℕ) → bit_xor (bit_xor a b) c ≡ bit_xor a (bit_xor b c)
xor_assoc a b c = assoc_below (a + b + c) a b c (omega arith) (omega arith) (omega arith)

-- Two equal words cancel.
pub xor-xor_cancel : (a b : ℕ) → bit_xor a (bit_xor a b) ≡ b
xor-xor_cancel a b = sym (xor_assoc a a b) ∙ ap (λ t. bit_xor t b) (xor_self a) ∙ zero-xor b

pub xor_middle :
    (a b c d : ℕ) → bit_xor (bit_xor a b) (bit_xor c d) ≡ bit_xor (bit_xor a c) (bit_xor b d)
xor_middle a b c d =
    xor_assoc a b (bit_xor c d)
    ∙ ap (bit_xor a)
        (sym (xor_assoc b c d) ∙ ap (λ t. bit_xor t d) (xor_comm b c) ∙ xor_assoc c b d)
    ∙ sym (xor_assoc a c (bit_xor b d))

pub div-two-pow : (a k : ℕ) → a / 2 ^ suc k ≡ a / 2 / 2 ^ k
div-two-pow a k = ap (λ t. a / t) (two_pow k) ∙ sym (div-div-eq-div-mul a 2 (2 ^ k))
  where
    two_pow : (j : ℕ) → 2 ^ suc j ≡ 2 * 2 ^ j
    two_pow j = omega (arith, pow-suc 2 j)

-- A shift to the right goes through, so a bit of the result depends on that bit of the words.
pub xor-shift : (k a b : ℕ) → bit_xor a b / 2 ^ k ≡ bit_xor (a / 2 ^ k) (b / 2 ^ k)
xor-shift zero a b = omega (arith, ap₂ bit_xor (shift_zero a) (shift_zero b))
  where
    shift_zero : (t : ℕ) → t / 2 ^ 0 ≡ t
    shift_zero t = omega arith
xor-shift (suc k) a b =
    div-two-pow (bit_xor a b) k
    ∙ ap (λ t. t / 2 ^ k) (xor-half a b)
    ∙ xor-shift k (a / 2) (b / 2)
    ∙ sym (ap₂ bit_xor (div-two-pow a k) (div-two-pow b k))

pub xor-bit : (k a b : ℕ) → bit_xor a b / 2 ^ k % 2 ≡ (a / 2 ^ k % 2 + b / 2 ^ k % 2) % 2
xor-bit k a b = omega (arith, ap (λ t. t % 2) (xor-shift k a b), xor-parity (a / 2 ^ k) (b / 2 ^ k))

pub xor-lt : (k a b : ℕ) → a < 2 ^ k → b < 2 ^ k → bit_xor a b < 2 ^ k
xor-lt zero a b p q =
    let ea : a ≡ 0 = omega arith in let eb : b ≡ 0 = omega arith in omega (arith, ap₂ bit_xor ea eb)
xor-lt (suc k) a b p q = omega (
  arith,
  bit_xor_step a b,
  pow-suc 2 k,
  xor-lt k (a / 2) (b / 2) (omega (arith, pow-suc 2 k)) (omega (arith, pow-suc 2 k)),
)

mul-two-pow : (q k : ℕ) → q * 2 ^ suc k ≡ 2 * (q * 2 ^ k)
mul-two-pow q k = omega (arith, ap (λ (t : ℕ). q * t) (pow-suc 2 k))

mod-two-pow : (a k : ℕ) → a % 2 ^ suc k ≡ a / 2 % 2 ^ k * 2 + a % 2
mod-two-pow a k = omega (
  arith,
  div-add-mod a (2 ^ suc k),
  div-add-mod (a / 2) (2 ^ k),
  ap (λ (t : ℕ). t * 2 ^ suc k) (div-two-pow a k),
  mul-two-pow (a / 2 / 2 ^ k) k,
)

-- The high part of a word, cleared by itself, leaves the low part.
pub xor_high : (k a : ℕ) → bit_xor a (a / 2 ^ k * 2 ^ k) ≡ a % 2 ^ k
xor_high zero a = ap (bit_xor a) {y = a} (omega arith) ∙ xor_self a ∙ omega arith
xor_high (suc k) a = omega (
  arith,
  bit_xor_step a (a / 2 ^ suc k * 2 ^ suc k),
  ap (λ t. bit_xor (a / 2) t) halved,
  doubled,
  xor_high k (a / 2),
  mod-two-pow a k,
)
  where
    doubled : a / 2 ^ suc k * 2 ^ suc k ≡ 2 * (a / 2 / 2 ^ k * 2 ^ k)
    doubled = ap (λ t. t * 2 ^ suc k) (div-two-pow a k) ∙ mul-two-pow (a / 2 / 2 ^ k) k

    halved : a / 2 ^ suc k * 2 ^ suc k / 2 ≡ a / 2 / 2 ^ k * 2 ^ k
    halved = omega (arith, doubled)
