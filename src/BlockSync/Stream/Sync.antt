-- ===== src/BlockSync/Stream/Sync.antt =====
-- src/rds/block_sync.c, `rds_find_block_in_register` in sync: when synchronisation is lost, and what
-- becomes of the offset and of the group.
use mpxcast.Prelude.{
  ℕ, ◌+◌, ◌≤◌, ◌<◌, ◌≡◌, refl, sym, ◌∙◌, Bool, true, false, not, List, [], ◌∷◌, ◌++◌, arith, ltb,
  lt→ltb, u64,
}
use mathlib.Core.Path.{subst₃}
use mpxcast.Float.{Float}
use mpxcast.BlockSync.Code.{Offset, same_offset, get_next_offset_for}
use mpxcast.BlockSync.Stream.{
  BlockStream, max_errors_tolerated, recent_error_push, recent_error_clear,
}
use mpxcast.BlockSync.Stream.Window.{
  Holds, RecentErrors, recent_error_clear-RecentErrors, recent_error_push-RecentErrors, last,
  count_errors,
}
use mpxcast.BlockSync.Stream.Receive.{finish_block, receive_block, process_block, adjust_expected}

module _ {F : Type 0} ⦃float : Float F⦄ where
  -- What no part of the reception of a block changes.
  pub record Keeps (s t : BlockStream F) : Type 0 where
    pub in_sync : t.is_in_sync ≡ s.is_in_sync
    pub lost : t.sync_lost_event ≡ s.sync_lost_event
    pub acquired : t.sync_acquired_event ≡ s.sync_acquired_event
    pub register : t.input_register ≡ s.input_register
    pub confidences : t.input_confidence_register ≡ s.input_confidence_register
    pub errors : t.recent_block_errors ≡ s.recent_block_errors
    pub errors_pos : t.recent_block_errors_pos ≡ s.recent_block_errors_pos
    pub errors_count : t.recent_block_errors_count ≡ s.recent_block_errors_count
    pub errors_sum : t.recent_block_error_sum ≡ s.recent_block_error_sum
    pub offsets : t.sync_offsets ≡ s.sync_offsets
    pub positions : t.sync_positions ≡ s.sync_positions
    pub bits : t.bits_until_next_block ≡ s.bits_until_next_block
    pub next : t.expected_offset ≡ get_next_offset_for s.expected_offset

  finish_block-Keeps : (s : BlockStream F) → Keeps s (finish_block s)
  unfolding finish_block
  finish_block-Keeps s = ground arith

  pub receive_block-Keeps :
      (s : BlockStream F) (raw : ℕ) (offset : Offset) (e : Bool)
      → Keeps s (receive_block s raw offset e)
  unfolding receive_block
  receive_block-Keeps s raw offset e = ground arith

  -- The window of errors is carried over by what keeps the ring.
  pub Keeps-RecentErrors :
      {s t : BlockStream F} (h : List Bool) → Keeps s t → RecentErrors s h → RecentErrors t h
  Keeps-RecentErrors {s} {t} h k r = record {
    held =
        subst₃ (λ ring pos count. Holds ring pos count (last 50 h)) (sym k.errors)
          (sym k.errors_pos) (sym k.errors_count) r.held;
    summed = k.errors_sum ∙ r.summed;
  }

  module _ (s : BlockStream F) (raw : ℕ) (offset : Offset) (history : List Bool) where
    abbrev pub had_error : Bool
    had_error = not (same_offset offset (adjust_expected s.expected_offset offset))

    abbrev pub errors : ℕ
    errors = count_errors (last 50 (history ++ (had_error ∷ [])))

    abbrev pub counted : BlockStream F
    counted =
        recent_error_push
          (record s {
            total_blocks_seen = u64 (s.total_blocks_seen + 1);
            expected_offset = adjust_expected s.expected_offset offset;
          })
          had_error

    pub counted-RecentErrors :
        RecentErrors s history → RecentErrors counted (history ++ (had_error ∷ []))
    counted-RecentErrors r =
        recent_error_push-RecentErrors _ history had_error
          (record { held = r.held; summed = r.summed })

    -- After a block with which more than 35 of the last fifty blocks had errors, synchronisation is
    -- lost, the event is raised and the window is empty.
    process_block_lost :
        RecentErrors s history
        → max_errors_tolerated < errors
        → let t = process_block s raw offset in
          (t.is_in_sync ≡ false) × (t.sync_lost_event ≡ true) × RecentErrors t []
    unfolding process_block
    process_block_lost r h =
        let full : ltb max_errors_tolerated counted.recent_block_error_sum ≡ true =
          lt→ltb _ _ (omega (arith, (counted-RecentErrors r).summed)) in
        rw full (
          unfold recent_error_clear in refl,
          unfold recent_error_clear in refl,
          recent_error_clear-RecentErrors _,
        )

    process_block_kept :
        RecentErrors s history
        → errors ≤ max_errors_tolerated
        → let t = process_block s raw offset in
          (t.is_in_sync ≡ s.is_in_sync)
          × (t.sync_lost_event ≡ s.sync_lost_event)
          × (t.expected_offset ≡ get_next_offset_for (adjust_expected s.expected_offset offset))
          × RecentErrors t (history ++ (had_error ∷ []))
    unfolding process_block
    process_block_kept r h =
        let few : ltb max_errors_tolerated counted.recent_block_error_sum ≡ false =
          ground (arith, (counted-RecentErrors r).summed) in
        let k = receive_block-Keeps counted raw offset had_error in
        rw few (
          k.in_sync ∙ (unfold recent_error_push in refl),
          k.lost ∙ (unfold recent_error_push in refl),
          k.next ∙ (unfold recent_error_push in refl),
          Keeps-RecentErrors (history ++ (had_error ∷ [])) k (counted-RecentErrors r),
        )

    -- The block in hand decides: if more than 35 of the last fifty blocks, this one included, had
    -- errors then synchronisation is lost, the event is raised and the window starts empty; and
    -- otherwise the stream stays as it was in that respect, counts the block, and goes on to the
    -- next offset of the cycle A B C D, where C' stands for an expected C.
    pub process_block_sync :
        RecentErrors s history
        → let t = process_block s raw offset in
          (max_errors_tolerated < errors
            → (t.is_in_sync ≡ false) × (t.sync_lost_event ≡ true) × RecentErrors t [])
          × (errors ≤ max_errors_tolerated
              → (t.is_in_sync ≡ s.is_in_sync)
                × (t.sync_lost_event ≡ s.sync_lost_event)
                × (t.expected_offset
                    ≡ get_next_offset_for (adjust_expected s.expected_offset offset))
                × RecentErrors t (history ++ (had_error ∷ [])))
    process_block_sync r = (process_block_lost r, process_block_kept r)
