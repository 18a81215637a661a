-- ===== src/BlockSync/Runs.antt =====
-- Concrete runs of src/rds/block_sync.c, and the theorems at concrete inputs.
use mpxcast.Prelude.{
  ℕ, zero, suc, ◌/◌, ◌%◌, ◌^◌, ◌≤◌, ◌<◌, bit_xor, ◌≡◌, refl, ◌⊎◌, inr, Bool, true, false, some,
  List, [], ◌∷◌, ◌++◌, map, arith, ◌==◌, length, replicate,
}
use mpxcast.Float.Whole.{whole}
use mpxcast.BlockSync.Code.{
  invalid, a, b, c, c_prime, d, offset_word, calculate_syndrome, get_offset_for_syndrome,
  get_next_offset_for,
}
use mpxcast.BlockSync.Code.Encoder.{encode, divide, encode_received}
use mpxcast.BlockSync.Correction.{
  Correction, burst_vector, correct_burst_errors, correct_soft_errors, shift_loop,
}
use mpxcast.BlockSync.Correction.Burst.{burst_sound}
use mpxcast.BlockSync.Correction.Recovery.{burst_recovers}
use mpxcast.BlockSync.Correction.Soft.{soft_returns_no_block}
use mpxcast.BlockSync.Stream.{BlockStream, recent_error_clear, max_errors_tolerated}
use mpxcast.BlockSync.Stream.Window.{
  RecentErrors, recent_error_clear-RecentErrors, recent_error_sum_of_window, push_all, count_errors,
  last,
}
use mpxcast.BlockSync.Stream.Receive.{
  zero_group, process_block, push_bit_with_confidence, adjust_expected,
}
use mpxcast.BlockSync.Stream.Sync.{process_block_sync, errors, had_error}
use mpxcast.BlockSync.Stream.Valid.{IsValid, push_bit_with_confidence-IsValid}
use mpxcast.BlockSync.Stream.Feed.{push_bits, spell}
use mpxcast.BlockSync.Stream.Groups.{group_of_four, summary, sent}
use mpxcast.BlockSync.Stream.WholeBlock.{offset_of}

-- A block with data 0x3201 and offset A, and the same with its bits 4 and 5 wrong.
block_a_is_a : calculate_syndrome 0xc80459 ≡ calculate_syndrome (offset_word a)
unfolding calculate_syndrome offset_word
block_a_is_a = refl

corrected :
    correct_burst_errors 0xc80469 a
    ≡ some (record { corrected_bits = 0xc80459; corrected_bit_count = 2 })
unfolding correct_burst_errors shift_loop burst_vector calculate_syndrome offset_word
corrected = refl

-- A word with the offset word of A for its syndrome, and its highest bit wrong.
soft_accepts :
    correct_soft_errors {F = ℕ} 0x2fc0000 a (replicate 26 1)
    ≡ some (record { corrected_bits = 0xfc0000; corrected_bit_count = 1 })
unfolding correct_soft_errors calculate_syndrome offset_word
soft_accepts = refl

encode_received_example :
    (get_offset_for_syndrome (calculate_syndrome 0xc80459) ≡ a) × (0xc80459 / 2 ^ 10 ≡ 0x3201)
unfolding encode divide offset_word
encode_received_example = encode_received a 0x3201 (omega arith)

burst_sound_example : get_offset_for_syndrome (calculate_syndrome 0xc80459) ≡ a
burst_sound_example = burst_sound 0xc80469 a corrected

burst_recovers_example :
    (r : Correction) × (correct_burst_errors (bit_xor 0xc80459 (burst_vector 3 4)) a ≡ some r)
    × (r.corrected_bits ≡ 0xc80459)
burst_recovers_example = burst_recovers 0xc80459 a 3 4 block_a_is_a (inr refl) (omega arith)

soft_returns_no_block_example :
    (calculate_syndrome 0xfc0000 ≡ offset_word a)
    × (get_offset_for_syndrome (calculate_syndrome 0xfc0000) ≡ invalid)
soft_returns_no_block_example = soft_returns_no_block 0x2fc0000 a (replicate 26 1) soft_accepts

abbrev fresh : BlockStream ℕ
fresh = record {
  input_register = 0;
  input_confidence_register = replicate 26 0;
  bit_count = 0;
  bits_until_next_block = 26;
  is_in_sync = true;
  sync_acquired_event = false;
  sync_lost_event = false;
  expected_offset = a;
  current_group = zero_group;
  ready_group = zero_group;
  has_group_ready = false;
  total_blocks_seen = 0;
  corrected_blocks_seen = 0;
  groups_ready_count = 0;
  recent_block_errors = replicate 50 false;
  recent_block_errors_pos = 0;
  recent_block_errors_count = 0;
  recent_block_error_sum = 0;
  sync_offsets = replicate 8 a;
  sync_positions = replicate 8 0;
}

fresh-RecentErrors : RecentErrors fresh []
unfolding recent_error_clear
fresh-RecentErrors = record {
  held = (recent_error_clear-RecentErrors fresh).held;
  summed = (recent_error_clear-RecentErrors fresh).summed;
}

fresh-IsValid : IsValid fresh
fresh-IsValid = record {
  register = omega arith;
  until_pos = omega arith;
  until_le = omega arith;
  searching = λ e. cc;
  expecting = λ _. refl;
  confidences = refl;
  groups = record { current = (refl, omega arith); ready = (refl, omega arith) };
  offsets = refl;
  positions = refl;
  window = ([], fresh-RecentErrors);
  tolerated = omega arith;
}

-- Three errors, then sixty clean blocks.
abbrev results : List Bool
results = true ∷ true ∷ true ∷ replicate 60 false

recent_error_sum_of_window_example :
    (push_all (recent_error_clear fresh) results).recent_block_error_sum
    ≡ count_errors (last 50 results)
recent_error_sum_of_window_example = recent_error_sum_of_window fresh results

process_block_sync_example :
    let t = process_block fresh 0xc80459 a in
    (max_errors_tolerated < errors fresh 0xc80459 a []
      → (t.is_in_sync ≡ false) × (t.sync_lost_event ≡ true) × RecentErrors t [])
    × (errors fresh 0xc80459 a [] ≤ max_errors_tolerated
        → (t.is_in_sync ≡ true)
          × (t.sync_lost_event ≡ false)
          × (t.expected_offset ≡ get_next_offset_for (adjust_expected a a))
          × RecentErrors t (had_error fresh 0xc80459 a [] ∷ []))
process_block_sync_example = process_block_sync fresh 0xc80459 a [] fresh-RecentErrors

push_bit_with_confidence-IsValid_example : IsValid (push_bit_with_confidence fresh true 1)
push_bit_with_confidence-IsValid_example =
    push_bit_with_confidence-IsValid fresh true 1 fresh-IsValid

-- The bits of a block, the highest first, each with confidence 1.
abbrev block_bits : ℕ → ℕ → List (Bool × ℕ)
block_bits zero raw = []
block_bits (suc k) raw = (raw / 2 ^ k % 2 == 1, 1) ∷ block_bits k raw

all_lengths :
    (length (block_bits 26 0xc80459) ≡ 26)
    × (length (block_bits 26 0x9042f8) ≡ 26)
    × (length (block_bits 26 0x1050a2e) ≡ 26)
    × (length (block_bits 26 0x10d115d) ≡ 26)
all_lengths = (refl, refl, refl, refl)

all_offsets :
    (offset_of (block_bits 26 0xc80459) ≡ a)
    × (offset_of (block_bits 26 0x9042f8) ≡ b)
    × ((offset_of (block_bits 26 0x1050a2e) ≡ c) ⊎ (offset_of (block_bits 26 0x1050a2e) ≡ c_prime))
    × (offset_of (block_bits 26 0x10d115d) ≡ d)
unfolding spell calculate_syndrome get_offset_for_syndrome
all_offsets = (refl, refl, inr refl, refl)

group_of_four_example :
    let t = push_bits fresh (
      block_bits 26 0xc80459
      ++ (block_bits 26 0x9042f8 ++ (block_bits 26 0x1050a2e ++ block_bits 26 0x10d115d))) in
    (t.has_group_ready ≡ true)
    × (map summary t.ready_group
        ≡ sent (block_bits 26 0xc80459)
          ∷ sent (block_bits 26 0x9042f8)
          ∷ sent (block_bits 26 0x1050a2e)
          ∷ sent (block_bits 26 0x10d115d)
          ∷ [])
    × (t.is_in_sync ≡ true)
    × (t.bits_until_next_block ≡ 26)
    × (t.expected_offset ≡ a)
group_of_four_example =
    group_of_four fresh (block_bits 26 0xc80459) (block_bits 26 0x9042f8) (block_bits 26 0x1050a2e)
      (block_bits 26 0x10d115d) fresh-IsValid refl refl refl all_lengths all_offsets
