-- ===== src/BlockSync/Correction/Recovery.antt =====
-- src/rds/block_sync.c, `rds_correct_burst_errors`: bursts have different syndromes, so the one that
-- happened is found.
use mpxcast.Prelude.{
  ℕ, zero, suc, ◌+◌, ◌<◌, ◌≤◌, bit_xor, Bool, true, false, some, none, or_else, ◌&&◌, ◌≡◌, refl, ap,
  sym, subst, ◌∙◌, ◌⊎◌, inl, inr, arith, ◌==◌, ==_iff, Bool-cases, Option-cases,
}
use native.Mathlib.Decide.{ℕ_discrete}
use mpxcast.Bits.Xor.{xor_comm, xor_assoc, xor_self, xor-zero}
use mpxcast.BlockSync.Code.{Offset, calculate_syndrome, offset_word}
use mpxcast.BlockSync.Code.Linear.{calculate_syndrome-xor}
use mpxcast.BlockSync.Correction.Burst.{IsBurst, correct_burst_errors-Explains}
use mpxcast.BlockSync.Correction.{Correction, burst_vector, shift_loop, correct_burst_errors}

-- The search finds something if one of its vectors fits.
shift_loop_finds :
    (raw word syndrome bits n shift k : ℕ)
    → shift ≤ k
    → k < n + shift
    → calculate_syndrome (bit_xor (burst_vector bits k) word) ≡ syndrome
    → (r : Correction) × (shift_loop raw word syndrome bits n shift ≡ some r)
unfolding shift_loop
shift_loop_finds raw word syndrome bits zero shift k lo hi h = absurd (omega arith)
shift_loop_finds raw word syndrome bits (suc n) shift k lo hi h =
    elim (Bool-cases (calculate_syndrome (bit_xor (burst_vector bits shift) word) == syndrome)) [
      | inl e ↦ rw e (_, refl)
      | inr e ↦
          rw e (shift_loop_finds raw word syndrome bits n (shift + 1) k (later e) (omega arith) h)
    ]
  where
    later :
        (calculate_syndrome (bit_xor (burst_vector bits shift) word) == syndrome) ≡ false
        → shift + 1 ≤ k
    later e = ground (
      arith,
      ap (λ t. calculate_syndrome (bit_xor (burst_vector bits t) word)) {x = shift} {y = k},
    )

-- The burst with a given syndrome, as the search itself finds it.
locate : ℕ → ℕ
locate syndrome = elim (or_else (shift_loop 0 0 syndrome 1 26 0) (shift_loop 0 0 syndrome 3 26 0)) [
  | some r ↦ r.corrected_bits
  | none ↦ 0
]

located_below : ℕ → ℕ → Bool
located_below bits zero = true
located_below bits (suc n) =
    (locate (calculate_syndrome (burst_vector bits n)) == burst_vector bits n)
    && located_below bits n

located_below_sound :
    (bits n k : ℕ)
    → located_below bits n ≡ true
    → k < n
    → locate (calculate_syndrome (burst_vector bits k)) ≡ burst_vector bits k
unfolding located_below
located_below_sound bits zero k h lt = absurd (omega arith)
located_below_sound bits (suc n) k h lt = elim (ℕ_discrete n k) [
  | yes e ↦
      subst (λ t. locate (calculate_syndrome (burst_vector bits t)) ≡ burst_vector bits t) e
        ((==_iff _ _).0 (ground arith))
  | no ne ↦ located_below_sound bits n k (ground arith) (omega arith)
]

table_one : located_below 1 26 ≡ true
unfolding located_below locate shift_loop calculate_syndrome burst_vector
table_one = refl

table_three : located_below 3 26 ≡ true
unfolding located_below locate shift_loop calculate_syndrome burst_vector
table_three = refl

-- No two different bursts have the same syndrome.
located : (e : ℕ) → IsBurst e → locate (calculate_syndrome e) ≡ e
located e (bits, shift, inl one, lt, eq) =
    let same = eq ∙ ap (λ t. burst_vector t shift) one in
    subst (λ t. locate (calculate_syndrome t) ≡ t) (sym same)
      (located_below_sound 1 26 shift table_one lt)
located e (bits, shift, inr three, lt, eq) =
    let same = eq ∙ ap (λ t. burst_vector t shift) three in
    subst (λ t. locate (calculate_syndrome t) ≡ t) (sym same)
      (located_below_sound 3 26 shift table_three lt)

burst_unique :
    (e f : ℕ) → IsBurst e → IsBurst f → calculate_syndrome e ≡ calculate_syndrome f → e ≡ f
burst_unique e f he hf h = sym (located e he) ∙ ap locate h ∙ located f hf

correct_burst_errors_finds :
    (raw : ℕ) (o : Offset) (bits k : ℕ)
    → (bits ≡ 1) ⊎ (bits ≡ 3)
    → k < 26
    → calculate_syndrome (bit_xor (burst_vector bits k) (offset_word o)) ≡ calculate_syndrome raw
    → (r : Correction) × (correct_burst_errors raw o ≡ some r)
unfolding correct_burst_errors
correct_burst_errors_finds raw o bits k (inl e) lt h =
    let (r, found) =
      shift_loop_finds raw (offset_word o) (calculate_syndrome raw) 1 26 0 k (omega arith)
        (omega arith)
        (subst
          (λ t.
            calculate_syndrome (bit_xor (burst_vector t k) (offset_word o))
            ≡ calculate_syndrome raw)
          e h) in
    (r, rw found)
correct_burst_errors_finds raw o bits k (inr e) lt h =
    let (r, found) =
      shift_loop_finds raw (offset_word o) (calculate_syndrome raw) 3 26 0 k (omega arith)
        (omega arith)
        (subst
          (λ t.
            calculate_syndrome (bit_xor (burst_vector t k) (offset_word o))
            ≡ calculate_syndrome raw)
          e h) in
    elim (Option-cases (shift_loop raw (offset_word o) (calculate_syndrome raw) 1 26 0)) [
      | inl nothing ↦ (r, rw nothing found)
      | inr (q, before) ↦ (q, rw before)
    ]

cancel_word :
    (e f w : ℕ)
    → calculate_syndrome (bit_xor e w) ≡ calculate_syndrome (bit_xor f w)
    → calculate_syndrome e ≡ calculate_syndrome f
cancel_word e f w h = sym (without e) ∙ ap (λ t. bit_xor t (calculate_syndrome w)) h ∙ without f
  where
    without :
        (x : ℕ)
        → bit_xor (calculate_syndrome (bit_xor x w)) (calculate_syndrome w) ≡ calculate_syndrome x
    without x =
        ap (λ t. bit_xor t (calculate_syndrome w)) (calculate_syndrome-xor x w)
        ∙ xor_assoc (calculate_syndrome x) (calculate_syndrome w) (calculate_syndrome w)
        ∙ ap (bit_xor (calculate_syndrome x)) (xor_self (calculate_syndrome w))
        ∙ xor-zero (calculate_syndrome x)

-- Every error of one bit or of two neighbouring bits is corrected: from a block of the expected
-- offset with such an error the burst corrector gives back exactly the block that was sent.
pub burst_recovers :
    (sent : ℕ) (o : Offset) (bits k : ℕ)
    → calculate_syndrome sent ≡ calculate_syndrome (offset_word o)
    → (bits ≡ 1) ⊎ (bits ≡ 3)
    → k < 26
    → (r : Correction) × (correct_burst_errors (bit_xor sent (burst_vector bits k)) o ≡ some r)
      × (r.corrected_bits ≡ sent)
burst_recovers sent o bits k valid hb lt =
    let e = burst_vector bits k in
    let raw = bit_xor sent e in
    let raw_syndrome : calculate_syndrome (bit_xor e (offset_word o)) ≡ calculate_syndrome raw =
      ap calculate_syndrome (xor_comm e (offset_word o))
      ∙ calculate_syndrome-xor (offset_word o) e
      ∙ ap (λ t. bit_xor t (calculate_syndrome e)) (sym valid)
      ∙ sym (calculate_syndrome-xor sent e) in
    let (r, found) = correct_burst_errors_finds raw o bits k hb lt raw_syndrome in
    let (f, burst, fixed, explains) = rw found at (correct_burst_errors-Explains raw o) in
    let same : e ≡ f =
      burst_unique e f (bits, k, hb, lt, refl) burst
        (cancel_word e f (offset_word o) (raw_syndrome ∙ sym explains)) in
    (
      r,
      found,
      fixed
          ∙ ap (bit_xor raw) (sym same)
          ∙ xor_assoc sent e e
          ∙ ap (bit_xor sent) (xor_self e)
          ∙ xor-zero sent,
    )
