-- ===== src/BlockSync/Stream.antt =====
-- src/rds/block_sync.c and block_sync.h, the stream: `struct rds_block_stream_state` and its
-- synchronisation buffers; the operations on bits and blocks are in `Receive`. A function on `*state` returns the new state. Counters wrap at their widths;
-- `size_t` has 64 bits.
pub mod Receive
pub mod Window
pub mod Ready
pub mod Valid
pub mod Sync
pub mod Feed
pub mod WholeBlock
pub mod Groups
use mpxcast.Prelude.{
  ℕ, zero, suc, ◌+◌, ◌-◌, ◌/◌, ◌%◌, ◌^◌, List, [], ◌∷◌, ◌++◌, Bool, true, false, not, ◌&&◌, get_or,
  set, drop, replicate, leb, ◌==◌, if◌then◌else◌, u32, u64, of_bool,
}
use mpxcast.BlockSync.Code.{Offset, invalid, same_offset, block_length, get_block_number_for_offset}

-- `struct rds_block`; the field `data` is named for its bits.
pub record Block (F : Type 0) : Type 0 where
  pub data_bits : ℕ
  pub is_received : Bool
  pub had_errors : Bool
  pub soft_reliable : Bool
  pub corrected_bit_count : ℕ
  pub confidence : F

-- `struct rds_group`: the four blocks.
abbrev pub Group : Type 0 → Type 0
Group F = List (Block F)

pub record BlockStream (F : Type 0) : Type 0 where
  pub input_register : ℕ
  pub input_confidence_register : List F
  pub bit_count : ℕ
  pub bits_until_next_block : ℕ
  pub is_in_sync : Bool
  pub sync_acquired_event : Bool
  pub sync_lost_event : Bool
  pub expected_offset : Offset
  pub current_group : Group F
  pub ready_group : Group F
  pub has_group_ready : Bool
  pub total_blocks_seen : ℕ
  pub corrected_blocks_seen : ℕ
  pub groups_ready_count : ℕ
  pub recent_block_errors : List Bool
  pub recent_block_errors_pos : ℕ
  pub recent_block_errors_count : ℕ
  pub recent_block_error_sum : ℕ
  pub sync_offsets : List Offset
  pub sync_positions : List ℕ

-- RDS_MAX_ERRORS_TOLERATED_OVER_50_BLOCKS
abbrev pub max_errors_tolerated : ℕ
max_errors_tolerated = 35

unfoldable pub sync_pulse_could_follow : Offset → ℕ → Offset → ℕ → Bool
sync_pulse_could_follow offset bit_position other_offset other_bit_position =
    let sync_distance = u32 (bit_position + 2 ^ 32 - other_bit_position) in
    (sync_distance % block_length == 0)
    && leb (sync_distance / block_length) 6
    && not (same_offset offset invalid)
    && not (same_offset other_offset invalid)
    && ((get_block_number_for_offset other_offset + sync_distance / block_length) % 4
        == get_block_number_for_offset offset)

-- Some `i`, `i + 1`, … passes the test within `n` rounds: a loop that returns from inside.
unfoldable pub any_in_range : (ℕ → Bool) → ℕ → ℕ → Bool
any_in_range test zero i = false
any_in_range test (suc n) i =
    let rest = any_in_range test n (i + 1) in if test i then true else rest

module _ {F : Type 0} where
  -- The shift by one of both eight-place buffers, and the new pulse at the end.
  unfoldable pub sync_buffer_push : BlockStream F → Offset → ℕ → BlockStream F
  sync_buffer_push state offset bit_position = record state {
    sync_offsets = drop 1 state.sync_offsets ++ (offset ∷ []);
    sync_positions = drop 1 state.sync_positions ++ (bit_position ∷ []);
  }

  unfoldable pub could_follow_at : BlockStream F → ℕ → ℕ → Bool
  unfolding sync_pulse_could_follow
  could_follow_at state later earlier =
      sync_pulse_could_follow (get_or state.sync_offsets later invalid)
        (get_or state.sync_positions later 0) (get_or state.sync_offsets earlier invalid)
        (get_or state.sync_positions earlier 0)

  unfoldable pub sync_buffer_is_sequence_found : BlockStream F → Bool
  unfolding any_in_range could_follow_at
  sync_buffer_is_sequence_found state =
      any_in_range
        (λ i_first.
          any_in_range
            (λ i_second. could_follow_at state 7 i_second && could_follow_at state i_second i_first)
            (7 - (i_first + 1)) (i_first + 1))
        6 0

  unfoldable pub recent_error_push : BlockStream F → Bool → BlockStream F
  recent_error_push state had_error =
      let pos = state.recent_block_errors_pos in
      let is_full = state.recent_block_errors_count == 50 in
      let oldest = of_bool (get_or state.recent_block_errors pos false) in
      let sum =
        if is_full
        then u64 (state.recent_block_error_sum + 2 ^ 64 - oldest)
        else state.recent_block_error_sum in
      record state {
        recent_block_errors_count =
            if is_full
            then state.recent_block_errors_count
            else u64 (state.recent_block_errors_count + 1);
        recent_block_errors = set state.recent_block_errors pos had_error;
        recent_block_error_sum = u64 (sum + of_bool had_error);
        recent_block_errors_pos = u64 (pos + 1) % 50;
      }

  unfoldable pub recent_error_clear : BlockStream F → BlockStream F
  recent_error_clear state = record state {
    recent_block_errors = replicate 50 false;
    recent_block_errors_pos = 0;
    recent_block_errors_count = 0;
    recent_block_error_sum = 0;
  }
