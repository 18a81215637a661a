-- ===== src/BlockSync/Correction.antt =====
-- src/rds/block_sync.c, `rds_correct_burst_errors` and `rds_correct_soft_errors`. Both return a
-- struct whose `succeeded` may be false: here an Option, `none` for a result with
-- `succeeded == false`, whose other fields no caller reads.
pub mod Burst
pub mod Recovery
pub mod Soft
use mpxcast.Prelude.{
  ℕ, zero, suc, ◌+◌, ◌-◌, ◌%◌, ◌^◌, List, [], ◌∷◌, Option, some, none, bit_xor, bit_or, get_or, set,
  replicate, or_else, ltb, leb, ◌==◌, if◌then◌else◌, ◌<<<◌, u32, u8,
}
use mpxcast.Float.{Float}
use mpxcast.BlockSync.Code.{Offset, calculate_syndrome, offset_word, block_length}

pub record Correction : Type 0 where
  pub corrected_bits : ℕ
  pub corrected_bit_count : ℕ

-- `(error_bits << shift) & RDS_BLOCK_BITMASK`
unfoldable pub burst_vector : ℕ → ℕ → ℕ
burst_vector error_bits shift = u32 (error_bits <<< shift) % 2 ^ 26

-- The inner loop at `shift`, with `n` rounds left, for one value of `error_bits`.
unfoldable pub shift_loop : (raw_block word syndrome error_bits n shift : ℕ) → Option Correction
shift_loop raw_block word syndrome error_bits zero shift = none
shift_loop raw_block word syndrome error_bits (suc n) shift =
    let error_vector = burst_vector error_bits shift in
    let rest = shift_loop raw_block word syndrome error_bits n (shift + 1) in
    if calculate_syndrome (bit_xor error_vector word) == syndrome
    then some (record {
      corrected_bits = bit_xor raw_block error_vector;
      corrected_bit_count = if error_bits == 1 then 1 else if error_bits == 3 then 2 else 0;
    })
    else rest

-- The outer loop runs for `error_bits` 0b1 and 0b11, and breaks.
unfoldable pub correct_burst_errors : ℕ → Offset → Option Correction
correct_burst_errors raw_block expected_offset =
    let word = offset_word expected_offset in
    let syndrome = calculate_syndrome raw_block in
    or_else (shift_loop raw_block word syndrome 1 block_length 0)
      (shift_loop raw_block word syndrome 3 block_length 0)

-- RDS_SOFT_CANDIDATE_BITS
abbrev pub soft_candidate_bits : ℕ
soft_candidate_bits = 6

-- The first result of `body i`, `body (i + 1)`, … in `n` rounds: a loop that returns from inside.
unfoldable pub first_of_range {ℓ} : {A : Type ℓ} → (ℕ → Option A) → ℕ → ℕ → Option A
first_of_range body zero i = none
first_of_range body (suc n) i = let rest = first_of_range body n (i + 1) in or_else (body i) rest

-- The candidates kept while the register is read: `weakest_confidence`, `weakest_index` and
-- `candidate_count`.
pub record Weakest (F : Type 0) : Type 0 where
  pub confidences : List F
  pub indices : List ℕ
  pub candidate_count : ℕ

-- `for (move = insert_at + n; move > insert_at; --move) xs[move] = xs[move - 1]`
unfoldable pub move_up : {A : Type 0} → ℕ → ℕ → A → List A → List A
move_up insert_at zero z xs = xs
move_up insert_at (suc n) z xs =
    move_up insert_at n z (set xs (insert_at + suc n) (get_or xs (insert_at + n) z))

module _ {F : Type 0} ⦃float : Float F⦄ where
  abbrev pub no_candidates : Weakest F
  no_candidates = record {
    confidences = replicate soft_candidate_bits (float.literal (10 ^ 9) 1);
    indices = replicate soft_candidate_bits 0;
    candidate_count = 0;
  }

  -- `insert_at` after its loop, started at `i` with `n` rounds left.
  unfoldable pub insert_position : List F → F → ℕ → ℕ → ℕ
  insert_position confidences confidence zero i = i
  insert_position confidences confidence (suc n) i =
      let rest = insert_position confidences confidence n (i + 1) in
      if float.lt confidence (get_or confidences i (float.literal 0 1)) then i else rest

  -- The body of the loop over the register, at `bit_index`.
  unfoldable pub consider : ℕ → F → Weakest F → Weakest F
  unfolding insert_position move_up
  consider bit_index confidence w =
      let insert_at = insert_position w.confidences confidence w.candidate_count 0 in
      let count =
        if ltb w.candidate_count soft_candidate_bits
        then w.candidate_count + 1
        else w.candidate_count in
      let moves = count - 1 - insert_at in
      if leb soft_candidate_bits insert_at then w else record {
        confidences =
            set (move_up insert_at moves (float.literal 0 1) w.confidences) insert_at confidence;
        indices = set (move_up insert_at moves 0 w.indices) insert_at (u8 bit_index);
        candidate_count = count;
      }

  unfoldable pub consider_all : List F → ℕ → Weakest F → Weakest F
  unfolding consider
  consider_all [] bit_index w = w
  consider_all (confidence ∷ rest) bit_index w =
      consider_all rest (bit_index + 1) (consider bit_index confidence w)

-- `1u << (RDS_BLOCK_LENGTH - 1u - weakest_index[i])`
abbrev pub flip_mask : List ℕ → ℕ → ℕ
flip_mask indices i = 1 <<< (block_length - 1 - get_or indices i 0)

-- One candidate of the three searches.
unfoldable pub try_mask : ℕ → ℕ → ℕ → ℕ → Option Correction
try_mask raw_block word flips mask =
    let candidate = bit_xor raw_block mask in
    if calculate_syndrome candidate == word
    then some (record { corrected_bits = candidate; corrected_bit_count = flips })
    else none

module _ (raw_block word : ℕ) (indices : List ℕ) (count : ℕ) where
  unfoldable pub flip_one : Option Correction
  unfolding try_mask first_of_range
  flip_one = first_of_range (λ i. try_mask raw_block word 1 (flip_mask indices i)) count 0

  unfoldable pub flip_two : Option Correction
  unfolding try_mask first_of_range
  flip_two =
      first_of_range
        (λ i.
          first_of_range
            (λ j. try_mask raw_block word 2 (bit_or (flip_mask indices i) (flip_mask indices j)))
            (count - (i + 1)) (i + 1))
        count 0

  unfoldable pub flip_three : Option Correction
  unfolding try_mask first_of_range
  flip_three =
      first_of_range
        (λ i.
          first_of_range
            (λ j.
              first_of_range
                (λ k. try_mask raw_block word 3 (
                  bit_or (bit_or (flip_mask indices i) (flip_mask indices j))
                    (flip_mask indices k)))
                (count - (j + 1)) (j + 1))
            (count - (i + 1)) (i + 1))
        count 0

-- RDS_SOFT_MAX_FLIPS is 3, so the search with four flips is never entered.
unfoldable pub search_flips : ℕ → ℕ → List ℕ → ℕ → Option Correction
unfolding flip_one flip_two flip_three
search_flips raw_block word indices count = or_else (flip_one raw_block word indices count) (
    or_else (if leb 2 count then flip_two raw_block word indices count else none)
      (if leb 3 count then flip_three raw_block word indices count else none))

unfoldable pub correct_soft_errors :
    {F : Type 0} ⦃float : Float F⦄ → ℕ → Offset → List F → Option Correction
unfolding consider_all search_flips
correct_soft_errors raw_block expected_offset confidence_register =
    let w = consider_all confidence_register 0 no_candidates in
    if w.candidate_count == 0
    then none
    else search_flips raw_block (offset_word expected_offset) w.indices w.candidate_count
