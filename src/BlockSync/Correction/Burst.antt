-- ===== src/BlockSync/Correction/Burst.antt =====
-- src/rds/block_sync.c, `rds_correct_burst_errors`: what it corrects, and that it is never wrong
-- about the offset.
use mpxcast.Prelude.{
  ℕ, zero, suc, ◌+◌, ◌<◌, ◌≤◌, bit_xor, Option, some, none, or_else, ◌≡◌, refl, ap, sym, ◌∙◌, ◌⊎◌,
  inl, inr, arith, ◌==◌, ==_iff, Bool-cases,
}
use mpxcast.Bits.Xor.{xor_comm, xor-xor_cancel}
use mpxcast.BlockSync.Code.{Offset, calculate_syndrome, offset_word, get_offset_for_syndrome}
use mpxcast.BlockSync.Code.Linear.{calculate_syndrome-xor, offset-of-offset_word}
use mpxcast.BlockSync.Correction.{Correction, burst_vector, shift_loop, correct_burst_errors}

-- The error vectors that the search tries.
abbrev pub IsBurst : ℕ → Type 0
IsBurst e =
    (bits : ℕ) × (shift : ℕ) × ((bits ≡ 1) ⊎ (bits ≡ 3))
    × (shift < 26)
    × (e ≡ burst_vector bits shift)

-- A correction by a burst whose syndrome is the one that the search looks for.
abbrev pub Explains : ℕ → ℕ → ℕ → Option Correction → Type 0
Explains raw word syndrome none = Unit {0}
Explains raw word syndrome (some r) =
    (e : ℕ) × IsBurst e
    × (r.corrected_bits ≡ bit_xor raw e)
    × (calculate_syndrome (bit_xor e word) ≡ syndrome)

shift_loop-Explains :
    (raw word syndrome bits n shift : ℕ)
    → (bits ≡ 1) ⊎ (bits ≡ 3)
    → n + shift ≤ 26
    → Explains raw word syndrome (shift_loop raw word syndrome bits n shift)
unfolding shift_loop
shift_loop-Explains raw word syndrome bits zero shift hb hn = tt
shift_loop-Explains raw word syndrome bits (suc n) shift hb hn =
    elim (Bool-cases (calculate_syndrome (bit_xor (burst_vector bits shift) word) == syndrome)) [
      | inl e ↦
          rw e
            (burst_vector bits shift, (bits, shift, hb, omega arith, refl), refl, (==_iff _ _).0 e)
      | inr e ↦ rw e (shift_loop-Explains raw word syndrome bits n (shift + 1) hb (omega arith))
    ]

or_else-Explains :
    (raw word syndrome : ℕ) (x y : Option Correction)
    → Explains raw word syndrome x
    → Explains raw word syndrome y
    → Explains raw word syndrome (or_else x y)
or_else-Explains raw word syndrome none y hx hy = hy
or_else-Explains raw word syndrome (some r) y hx hy = hx

pub correct_burst_errors-Explains :
    (raw : ℕ) (o : Offset)
    → Explains raw (offset_word o) (calculate_syndrome raw) (correct_burst_errors raw o)
unfolding correct_burst_errors
correct_burst_errors-Explains raw o =
    let word = offset_word o in
    let syndrome = calculate_syndrome raw in
    or_else-Explains raw word syndrome (shift_loop raw word syndrome 1 26 0)
      (shift_loop raw word syndrome 3 26 0)
      (shift_loop-Explains raw word syndrome 1 26 0 (inl refl) (omega arith))
      (shift_loop-Explains raw word syndrome 3 26 0 (inr refl) (omega arith))

-- The error vector of a correction turns the syndrome of the raw block into that of the word.
corrected_syndrome :
    (raw e word : ℕ)
    → calculate_syndrome (bit_xor e word) ≡ calculate_syndrome raw
    → calculate_syndrome (bit_xor raw e) ≡ calculate_syndrome word
corrected_syndrome raw e word h =
    calculate_syndrome-xor raw e
    ∙ ap (λ t. bit_xor t (calculate_syndrome e)) (sym h ∙ calculate_syndrome-xor e word)
    ∙ xor_comm (bit_xor (calculate_syndrome e) (calculate_syndrome word)) (calculate_syndrome e)
    ∙ xor-xor_cancel (calculate_syndrome e) (calculate_syndrome word)

-- Whatever block the burst corrector returns is a block of the expected offset: the receiver's
-- own test names that offset for it.
pub burst_sound :
    (raw : ℕ) (o : Offset) {r : Correction}
    → correct_burst_errors raw o ≡ some r
    → get_offset_for_syndrome (calculate_syndrome r.corrected_bits) ≡ o
burst_sound raw o {r} h =
    let (e, burst, fixed, explains) = rw h at (correct_burst_errors-Explains raw o) in
    ap (λ t. get_offset_for_syndrome (calculate_syndrome t)) fixed
    ∙ ap get_offset_for_syndrome (corrected_syndrome raw e (offset_word o) explains)
    ∙ offset-of-offset_word o
