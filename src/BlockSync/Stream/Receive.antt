-- ===== src/BlockSync/Stream/Receive.antt =====
-- src/rds/block_sync.c, from a bit to a group: the acquisition of synchronisation, the reception of a
-- block, and the operations that block_sync.h declares.
use mpxcast.Prelude.{
  ℕ, ◌+◌, ◌-◌, ◌%◌, ◌^◌, List, [], ◌∷◌, ◌++◌, Bool, true, false, not, ◌&&◌, Option, some, none,
  or_else, bit_or, set, drop, replicate, ltb, leb, ◌==◌, if◌then◌else◌, ◌<<<◌, ◌>>>◌, u16, u32, u64,
  of_bool,
}
use mpxcast.Float.{Float, float_zero}
use mpxcast.BlockSync.Code.{
  Offset, invalid, a, c, c_prime, same_offset, block_length, checkword_length,
  get_block_number_for_offset, get_next_offset_for, calculate_syndrome, get_offset_for_syndrome,
}
use mpxcast.BlockSync.Correction.{Correction, correct_burst_errors, correct_soft_errors}
use mpxcast.BlockSync.Stream.{
  Block, Group, BlockStream, max_errors_tolerated, sync_buffer_push, sync_buffer_is_sequence_found,
  recent_error_push, recent_error_clear,
}

-- A block with offset C' is accepted where one with offset C is expected.
unfoldable pub adjust_expected : Offset → Offset → Offset
adjust_expected expected offset =
    if same_offset expected c && same_offset offset c_prime then c_prime else expected

module _ {F : Type 0} ⦃float : Float F⦄ where
  -- What `memset` to 0 leaves in a group.
  abbrev pub zero_block : Block F
  zero_block = record {
    data_bits = 0;
    is_received = false;
    had_errors = false;
    soft_reliable = false;
    corrected_bit_count = 0;
    confidence = float_zero;
  }

  abbrev pub zero_group : Group F
  zero_group = zero_block ∷ zero_block ∷ zero_block ∷ zero_block ∷ []

  -- `rds_get_block_confidence`
  unfoldable pub sum_confidences : List F → F → F
  sum_confidences [] sum = sum
  sum_confidences (x ∷ rest) sum = sum_confidences rest (float.add sum x)

  unfoldable pub get_block_confidence : BlockStream F → F
  unfolding sum_confidences
  get_block_confidence state =
      float.divide (sum_confidences state.input_confidence_register float_zero)
        (float.of_ℕ block_length)

  unfoldable pub acquire_sync : BlockStream F → Offset → ℕ → BlockStream F
  acquire_sync state offset bit_position =
      let pushed = sync_buffer_push state offset bit_position in
      if state.is_in_sync
      then state
      else if same_offset offset invalid
      then state
      else if sync_buffer_is_sequence_found pushed
      then recent_error_clear (record pushed {
        is_in_sync = true;
        sync_acquired_event = true;
        expected_offset = offset;
        current_group = zero_group;
      })
      else pushed

  unfoldable pub handle_ready_group : BlockStream F → BlockStream F
  handle_ready_group state = record state {
    ready_group = state.current_group;
    has_group_ready = true;
    groups_ready_count = u64 (state.groups_ready_count + 1);
    current_group = zero_group;
  }

  -- The block of `rds_find_block_in_register` that corrects a block with errors.
  unfoldable pub correct_errors : BlockStream F → ℕ → Bool → Option Correction
  correct_errors state raw had_errors =
      if had_errors
      then or_else (correct_burst_errors raw state.expected_offset)
          (correct_soft_errors raw state.expected_offset state.input_confidence_register)
      else none

  -- The five fields that are stored for a received block.
  unfoldable pub received_block : F → ℕ → Bool → ℕ → Block F
  received_block block_confidence data_bits had_errors corrected_bit_count = record {
    data_bits = data_bits;
    is_received = true;
    had_errors = had_errors;
    corrected_bit_count = corrected_bit_count;
    confidence = block_confidence;
    soft_reliable =
        had_errors
        && ltb 0 corrected_bit_count
        && leb corrected_bit_count 2
        && float.ge block_confidence float_zero;
  }

  unfoldable pub store_block : BlockStream F → Block F → BlockStream F
  store_block state block = record state {
    current_group =
        set state.current_group (get_block_number_for_offset state.expected_offset) block;
  }

  -- The end of the function: the block is stored, a full group handed over, the offset advanced.
  unfoldable pub finish_block : BlockStream F → BlockStream F
  unfolding handle_ready_group
  finish_block state =
      let next = get_next_offset_for state.expected_offset in
      let handed = if same_offset next a then handle_ready_group state else state in
      record handed { expected_offset = next }

  -- The block is stored as corrected, or as it came if it has the expected offset.
  unfoldable pub store_received :
      BlockStream F → ℕ → Offset → Bool → Option Correction → BlockStream F
  unfolding received_block store_block
  store_received state raw offset had_errors (some correction) =
      store_block (record state { corrected_blocks_seen = u64 (state.corrected_blocks_seen + 1) })
        (received_block (get_block_confidence state)
          (u16 (correction.corrected_bits >>> checkword_length)) had_errors
          correction.corrected_bit_count)
  store_received state raw offset had_errors none =
      let block =
        received_block (get_block_confidence state) (u16 (raw >>> checkword_length)) had_errors 0 in
      if same_offset offset state.expected_offset then store_block state block else state

  unfoldable pub receive_block : BlockStream F → ℕ → Offset → Bool → BlockStream F
  unfolding store_received finish_block
  receive_block state raw offset had_errors =
      finish_block
        (store_received state raw offset had_errors (correct_errors state raw had_errors))

  -- The part of `rds_find_block_in_register` behind the test of `is_in_sync`.
  unfoldable pub process_block : BlockStream F → ℕ → Offset → BlockStream F
  process_block state raw offset =
      let expected = adjust_expected state.expected_offset offset in
      let had_errors = not (same_offset offset expected) in
      let counted =
        recent_error_push
          (record state {
            total_blocks_seen = u64 (state.total_blocks_seen + 1);
            expected_offset = expected;
          })
          had_errors in
      if ltb max_errors_tolerated counted.recent_block_error_sum
      then recent_error_clear (record counted { is_in_sync = false; sync_lost_event = true })
      else receive_block counted raw offset had_errors

  unfoldable pub find_block_in_register : BlockStream F → BlockStream F
  find_block_in_register state =
      let raw = state.input_register % 2 ^ block_length in
      let offset = get_offset_for_syndrome (calculate_syndrome raw) in
      let acquired = acquire_sync state offset state.bit_count in
      if acquired.is_in_sync then process_block acquired raw offset else acquired

  unfoldable pub init : BlockStream F
  init = record {
    input_register = 0;
    input_confidence_register = replicate 26 float_zero;
    bit_count = 0;
    bits_until_next_block = 1;
    is_in_sync = false;
    sync_acquired_event = false;
    sync_lost_event = false;
    expected_offset = invalid;
    current_group = zero_group;
    ready_group = zero_group;
    has_group_ready = false;
    total_blocks_seen = 0;
    corrected_blocks_seen = 0;
    groups_ready_count = 0;
    recent_block_errors = replicate 50 false;
    recent_block_errors_pos = 0;
    recent_block_errors_count = 0;
    recent_block_error_sum = 0;
    sync_offsets = replicate 8 invalid;
    sync_positions = replicate 8 0;
  }

  -- The registers and counters, before the test of `bits_until_next_block`.
  unfoldable pub shift_in : BlockStream F → Bool → F → BlockStream F
  shift_in state bit confidence = record state {
    input_register = bit_or (u32 (state.input_register <<< 1)) (of_bool bit);
    input_confidence_register = drop 1 state.input_confidence_register ++ (confidence ∷ []);
    bits_until_next_block = u32 (state.bits_until_next_block + 2 ^ 32 - 1);
    bit_count = u32 (state.bit_count + 1);
  }

  -- The end of a block, and how far away the next one is.
  unfoldable pub complete_block : BlockStream F → BlockStream F
  complete_block state =
      let found = find_block_in_register state in
      record found { bits_until_next_block = if found.is_in_sync then block_length else 1 }

  unfoldable pub push_bit_with_confidence : BlockStream F → Bool → F → BlockStream F
  push_bit_with_confidence state bit confidence =
      let shifted = shift_in state bit confidence in
      if shifted.bits_until_next_block == 0 then complete_block shifted else shifted

  unfoldable pub push_bit : BlockStream F → Bool → BlockStream F
  unfolding push_bit_with_confidence
  push_bit state bit = push_bit_with_confidence state bit (float.literal 1 1)

module _ {F : Type 0} where
  unfoldable pub has_group_ready : BlockStream F → Bool
  has_group_ready state = state.has_group_ready

  unfoldable pub pop_group : BlockStream F → Group F × BlockStream F
  pop_group state = (state.ready_group, record state { has_group_ready = false })

  unfoldable pub consume_sync_acquired : BlockStream F → Bool × BlockStream F
  consume_sync_acquired state =
      (state.sync_acquired_event, record state { sync_acquired_event = false })

  unfoldable pub consume_sync_lost : BlockStream F → Bool × BlockStream F
  consume_sync_lost state = (state.sync_lost_event, record state { sync_lost_event = false })
