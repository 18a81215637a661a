-- ===== src/BlockSync/Code/Encoder.antt =====
-- src/rds/block_sync.c: the code of the receiver against a sender that divides polynomials, as the
-- standard for RDS (IEC 62106, annex B) describes the checkword.
use native.Mathlib.Nat.{pow-suc, div-lt_iff_lt-mul}
use native.Mathlib.Decide.{ℕ_discrete}
use mpxcast.Prelude.{
  ℕ, zero, suc, ◌+◌, ◌/◌, ◌%◌, ◌^◌, ◌≤◌, ◌<◌, bit_xor, Bool, true, ◌&&◌, ◌≡◌, refl, ap, ap₂, subst,
  ◌∙◌, arith, ◌==◌, ==_iff, if◌then◌else◌, if_both, ◌>>>◌, ◌<<<◌,
}
use mpxcast.Bits.Mask.{two-pow_pos}
use mpxcast.Bits.Xor.{xor-shift, xor-zero, zero-xor, xor_self}
use mpxcast.BlockSync.Code.{
  Offset, invalid, a, b, c, c_prime, d, calculate_syndrome, get_offset_for_syndrome, offset_word,
  checkword_length,
}
use mpxcast.BlockSync.Code.Linear.{calculate_syndrome-xor, offset-of-offset_word}

-- x ^ 10 + x ^ 8 + x ^ 7 + x ^ 5 + x ^ 4 + x ^ 3 + 1
abbrev generator : ℕ
generator = 0b10110111001

-- What is left of a polynomial of degree below `n + 10` by the generator, by long division.
unfoldable pub divide : ℕ → ℕ → ℕ
divide zero dividend = dividend
divide (suc n) dividend =
    divide n
      (if (dividend >>> (n + 10)) % 2 == 1 then bit_xor dividend (generator <<< n) else dividend)

-- The block that is sent: the data, the checkword behind it, and the offset word on top of that.
unfoldable pub encode : Offset → ℕ → ℕ
unfolding divide
encode o word =
    let shifted = word <<< checkword_length in
    bit_xor (bit_xor shifted (divide 16 shifted)) (offset_word o)

-- The multiples of the generator by powers have no syndrome, and their highest bit is the tenth one up.
is_multiple : ℕ → Bool
is_multiple n = (calculate_syndrome (generator <<< n) == 0) && ((generator <<< n) >>> (n + 10) == 1)

multiples_below : ℕ → Bool
multiples_below zero = true
multiples_below (suc n) = is_multiple n && multiples_below n

multiples_below_sound : (n k : ℕ) → multiples_below n ≡ true → k < n → is_multiple k ≡ true
unfolding multiples_below
multiples_below_sound zero k h lt = absurd (omega (arith, lt))
multiples_below_sound (suc n) k h lt = elim (ℕ_discrete n k) [
  | yes e ↦ subst (λ t. is_multiple t ≡ true) e (ground (arith, h))
  | no ne ↦ multiples_below_sound n k (ground (arith, h)) (omega (arith, lt, ne))
]

abbrev IsMultiple : ℕ → Type 0
IsMultiple n = (calculate_syndrome (generator <<< n) ≡ 0) × ((generator <<< n) >>> (n + 10) ≡ 1)

multiples : (k : ℕ) → k < 16 → IsMultiple k
unfolding is_multiple multiples_below calculate_syndrome
multiples k lt =
    let checked : is_multiple k ≡ true = multiples_below_sound 16 k refl lt in
    ((==_iff _ _).0 (ground (arith, checked)), (==_iff _ _).0 (ground (arith, checked)))

divide-syndrome :
    (n dividend : ℕ) → n ≤ 16 → calculate_syndrome (divide n dividend) ≡ calculate_syndrome dividend
unfolding divide
divide-syndrome zero dividend few = refl
divide-syndrome (suc n) dividend few =
    divide-syndrome n _ (omega (arith, few))
    ∙ if_both (λ t. calculate_syndrome t ≡ calculate_syndrome dividend)
        ((dividend >>> (n + 10)) % 2 == 1) (bit_xor dividend (generator <<< n)) dividend
        (λ _.
          calculate_syndrome-xor dividend (generator <<< n)
          ∙ ap (bit_xor (calculate_syndrome dividend)) (multiples n (omega (arith, few))).0
          ∙ xor-zero (calculate_syndrome dividend))
        (λ _. refl)

-- Each round takes the highest bit away.
round-lt :
    (n dividend : ℕ)
    → n < 16
    → dividend < 2 ^ suc (n + 10)
    → (if (dividend >>> (n + 10)) % 2 == 1 then bit_xor dividend (generator <<< n) else dividend)
      < 2 ^ (n + 10)
round-lt n dividend few lt =
    let m = 2 ^ (n + 10) in
    let pos : 0 < m = two-pow_pos (n + 10) in
    let high : dividend / m < 2 =
      (div-lt_iff_lt-mul {k = m} {x = dividend} {y = 2} pos).1
        (omega (arith, lt, pow-suc 2 (n + 10))) in
    let below : (t : ℕ) → t / m ≡ 0 → t < m =
      λ t e. omega (arith, (div-lt_iff_lt-mul {k = m} {x = t} {y = 1} pos).0 (omega (arith, e))) in
    if_both (λ t. t < m) ((dividend >>> (n + 10)) % 2 == 1) (bit_xor dividend (generator <<< n))
      dividend
      (λ odd. below (bit_xor dividend (generator <<< n)) (
        xor-shift (n + 10) dividend (generator <<< n)
        ∙ ap₂ bit_xor {x = dividend / m} {y = 1} (ground (arith, odd, high)) (multiples n few).1))
      (λ even. below dividend (ground (arith, even, high)))

divide-lt : (n dividend : ℕ) → n ≤ 16 → dividend < 2 ^ (n + 10) → divide n dividend < 2 ^ 10
unfolding divide
divide-lt zero dividend few lt = lt
divide-lt (suc n) dividend few lt = divide-lt n _ (omega (arith, few)) (
    round-lt n dividend (omega (arith, few))
      (subst (λ k. dividend < 2 ^ k) {x = suc n + 10} (omega arith) lt))

offset_word_high : (o : Offset) → offset_word o / 2 ^ 10 ≡ 0
unfolding offset_word
offset_word_high invalid = refl
offset_word_high a = refl
offset_word_high b = refl
offset_word_high c = refl
offset_word_high c_prime = refl
offset_word_high d = refl

-- For every offset and every word of 16 bits, a sender appends the checkword that long division by
-- the polynomial x ^ 10 + x ^ 8 + x ^ 7 + x ^ 5 + x ^ 4 + x ^ 3 + 1 leaves and adds the offset
-- word: in the block that is sent the receiver names exactly that offset, and its upper 16 bits are
-- the word.
pub encode_received :
    (o : Offset) (word : ℕ)
    → word < 2 ^ 16
    → (get_offset_for_syndrome (calculate_syndrome (encode o word)) ≡ o)
      × (encode o word >>> checkword_length ≡ word)
unfolding encode
encode_received o word lt =
    let shifted = word <<< 10 in
    let check = divide 16 shifted in
    let small : check < 2 ^ 10 = divide-lt 16 shifted (omega arith) (omega (arith, lt)) in
    let no_more : check / 2 ^ 10 ≡ 0 = omega (arith, small) in
    let clean : calculate_syndrome (bit_xor shifted check) ≡ 0 =
      calculate_syndrome-xor shifted check
      ∙ ap (bit_xor (calculate_syndrome shifted)) (divide-syndrome 16 shifted (omega arith))
      ∙ xor_self (calculate_syndrome shifted) in
    (
      ap get_offset_for_syndrome (
            calculate_syndrome-xor (bit_xor shifted check) (offset_word o)
            ∙ ap (λ t. bit_xor t (calculate_syndrome (offset_word o))) clean
            ∙ zero-xor (calculate_syndrome (offset_word o)))
          ∙ offset-of-offset_word o,
      xor-shift 10 (bit_xor shifted check) (offset_word o)
          ∙ ap₂ bit_xor
              (xor-shift 10 shifted check
                ∙ ap₂ bit_xor {x = shifted / 2 ^ 10} {y = word} (omega arith) no_more
                ∙ xor-zero word)
              (offset_word_high o)
          ∙ xor-zero word,
    )
