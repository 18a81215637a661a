-- ===== src/BlockSync/Correction/Soft.antt =====
-- src/rds/block_sync.c, `rds_correct_soft_errors`: which blocks it accepts.
use mpxcast.Prelude.{
  ℕ, zero, suc, ◌+◌, ◌-◌, List, Bool, true, false, Option, some, none, or_else, bit_xor, bit_or,
  ◌≡◌, refl, ap, ◌∙◌, inl, inr, leb, ◌==◌, ==_iff, Bool-cases, if◌then◌else◌,
}
use mpxcast.Float.{Float}
use mpxcast.BlockSync.Code.{
  Offset, invalid, a, b, c, c_prime, d, calculate_syndrome, offset_word, get_offset_for_syndrome,
}
use mpxcast.BlockSync.Correction.{
  Correction, first_of_range, try_mask, flip_mask, flip_one, flip_two, flip_three, search_flips,
  correct_soft_errors, consider_all, no_candidates,
}

module _ (word : ℕ) where
  -- What the searches test: a block whose syndrome is the offset word itself.
  abbrev Hits : Option Correction → Type 0
  Hits none = Unit {0}
  Hits (some r) = calculate_syndrome r.corrected_bits ≡ word

  try_mask-Hits : (raw flips mask : ℕ) → Hits (try_mask raw word flips mask)
  unfolding try_mask
  try_mask-Hits raw flips mask = elim (Bool-cases (calculate_syndrome (bit_xor raw mask) == word)) [
    | inl e ↦ rw e ((==_iff _ _).0 e)
    | inr e ↦ rw e tt
  ]

  or_else-Hits : (x y : Option Correction) → Hits x → Hits y → Hits (or_else x y)
  or_else-Hits none y hx hy = hy
  or_else-Hits (some r) y hx hy = hx

  if-Hits : (test : Bool) (x : Option Correction) → Hits x → Hits (if test then x else none)
  if-Hits true x h = h
  if-Hits false x h = tt

  first_of_range-Hits :
      (body : ℕ → Option Correction)
      → ((i : ℕ) → Hits (body i))
      → (n i : ℕ) → Hits (first_of_range body n i)
  unfolding first_of_range
  first_of_range-Hits body h zero i = tt
  first_of_range-Hits body h (suc n) i =
      or_else-Hits (body i) (first_of_range body n (i + 1)) (h i)
        (first_of_range-Hits body h n (i + 1))

  module _ (raw : ℕ) (indices : List ℕ) (count : ℕ) where
    flip_one-Hits : Hits (flip_one raw word indices count)
    unfolding flip_one
    flip_one-Hits =
        first_of_range-Hits (λ i. try_mask raw word 1 (flip_mask indices i))
          (λ i. try_mask-Hits raw 1 (flip_mask indices i)) count 0

    abbrev two : ℕ → ℕ → Option Correction
    two i j = try_mask raw word 2 (bit_or (flip_mask indices i) (flip_mask indices j))

    flip_two-Hits : Hits (flip_two raw word indices count)
    unfolding flip_two
    flip_two-Hits =
        first_of_range-Hits (λ i. first_of_range (two i) (count - (i + 1)) (i + 1))
          (λ i. first_of_range-Hits (two i) (λ j. try_mask-Hits raw 2 _) (count - (i + 1)) (i + 1))
          count 0

    abbrev three : ℕ → ℕ → ℕ → Option Correction
    three i j k =
        try_mask raw word 3
          (bit_or (bit_or (flip_mask indices i) (flip_mask indices j)) (flip_mask indices k))

    abbrev inner : ℕ → ℕ → Option Correction
    inner i j = first_of_range (three i j) (count - (j + 1)) (j + 1)

    flip_three-Hits : Hits (flip_three raw word indices count)
    unfolding flip_three
    flip_three-Hits =
        first_of_range-Hits (λ i. first_of_range (inner i) (count - (i + 1)) (i + 1))
          (λ i.
            first_of_range-Hits (inner i)
              (λ j.
                first_of_range-Hits (three i j) (λ k. try_mask-Hits raw 3 _) (count - (j + 1))
                  (j + 1))
              (count - (i + 1)) (i + 1))
          count 0

    search_flips-Hits : Hits (search_flips raw word indices count)
    unfolding search_flips
    search_flips-Hits = or_else-Hits (flip_one raw word indices count) _ flip_one-Hits (
        or_else-Hits (if leb 2 count then flip_two raw word indices count else none) _
          (if-Hits (leb 2 count) _ flip_two-Hits) (if-Hits (leb 3 count) _ flip_three-Hits))

no_offset_of_word : (o : Offset) → get_offset_for_syndrome (offset_word o) ≡ invalid
unfolding get_offset_for_syndrome offset_word
no_offset_of_word invalid = refl
no_offset_of_word a = refl
no_offset_of_word b = refl
no_offset_of_word c = refl
no_offset_of_word c_prime = refl
no_offset_of_word d = refl

correct_soft_errors-Hits :
    {F : Type 0} ⦃float : Float F⦄ (raw : ℕ) (o : Offset) (confidences : List F)
    → Hits (offset_word o) (correct_soft_errors raw o confidences)
unfolding correct_soft_errors
correct_soft_errors-Hits raw o confidences =
    let w = consider_all confidences 0 no_candidates in
    elim (Bool-cases (w.candidate_count == 0)) [
      | inl e ↦ rw e tt
      | inr e ↦ rw e (search_flips-Hits (offset_word o) raw w.indices w.candidate_count)
    ]

-- The soft corrector compares a candidate's syndrome with the offset word, not with the syndrome
-- of the offset word. So every block that it returns has the offset word for its syndrome, and
-- the receiver's own test names no offset for it: it is a block of no kind.
pub soft_returns_no_block :
    {F : Type 0} ⦃float : Float F⦄ (raw : ℕ) (o : Offset) (confidences : List F) {r : Correction}
    → correct_soft_errors raw o confidences ≡ some r
    → (calculate_syndrome r.corrected_bits ≡ offset_word o)
      × (get_offset_for_syndrome (calculate_syndrome r.corrected_bits) ≡ invalid)
soft_returns_no_block raw o confidences {r} h =
    let hit = rw h at (correct_soft_errors-Hits raw o confidences) in
    (hit, ap get_offset_for_syndrome hit ∙ no_offset_of_word o)
