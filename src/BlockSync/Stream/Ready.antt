-- ===== src/BlockSync/Stream/Ready.antt =====
-- src/rds/block_sync.c: the two groups of the state, kept in their form by every operation.
use mpxcast.Prelude.{
  ℕ, ◌^◌, ◌<◌, ◌≡◌, refl, ◌∙◌, inl, inr, Bool, Option, none, some, [], arith, ltb, Bool-cases,
  length, All, length-set, if_both, All-set,
}
use mpxcast.Float.{Float}
use mpxcast.BlockSync.Code.{
  Offset, invalid, a, same_offset, get_block_number_for_offset, get_next_offset_for,
}
use mpxcast.BlockSync.Correction.{Correction}
use mpxcast.BlockSync.Stream.{
  Block, Group, BlockStream, max_errors_tolerated, recent_error_push, recent_error_clear,
  sync_buffer_push, sync_buffer_is_sequence_found,
}
use mpxcast.BlockSync.Stream.Receive.{
  handle_ready_group, store_block, finish_block, receive_block, store_received, process_block,
  acquire_sync,
}
use mpxcast.BlockSync.Stream.Sync.{had_error, counted}

module _ {F : Type 0} where
  -- A group has four blocks, each of 16 bits.
  abbrev pub IsGroup : Group F → Type 0
  IsGroup g = (length g ≡ 4) × All (λ (block : Block F). block.data_bits < 2 ^ 16) g

  pub record HasGroups (s : BlockStream F) : Type 0 where
    pub current : IsGroup s.current_group
    pub ready : IsGroup s.ready_group

module _ {F : Type 0} ⦃float : Float F⦄ where
  store_block-HasGroups :
      (s : BlockStream F) (block : Block F)
      → block.data_bits < 2 ^ 16
      → HasGroups s
      → HasGroups (store_block s block)
  unfolding store_block
  store_block-HasGroups s block h g = record {
    current = (
      length-set s.current_group (get_block_number_for_offset s.expected_offset) block
          ∙ g.current.0,
      All-set (λ (x : Block F). x.data_bits < 2 ^ 16) s.current_group
          (get_block_number_for_offset s.expected_offset) block h g.current.1,
    );
    ready = g.ready;
  }

  finish_block-HasGroups : (s : BlockStream F) → HasGroups s → HasGroups (finish_block s)
  unfolding finish_block handle_ready_group
  finish_block-HasGroups s g =
      elim (Bool-cases (same_offset (get_next_offset_for s.expected_offset) a)) [
        | inl e ↦ rw e (record { current = (refl, omega arith); ready = g.current })
        | inr e ↦ rw e (record { current = g.current; ready = g.ready })
      ]

  store_received-HasGroups :
      (s : BlockStream F) (raw : ℕ) (offset : Offset) (e : Bool) (found : Option Correction)
      → HasGroups s
      → HasGroups (store_received s raw offset e found)
  unfolding store_received
  store_received-HasGroups s raw offset e (some correction) g =
      store_block-HasGroups _ _ (omega arith) (record { current = g.current; ready = g.ready })
  store_received-HasGroups s raw offset e none g =
      if_both HasGroups (same_offset offset s.expected_offset) _ s
        (λ _. store_block-HasGroups s _ (omega arith) g) (λ _. g)

  pub process_block-HasGroups :
      (s : BlockStream F) (raw : ℕ) (offset : Offset)
      → HasGroups s
      → HasGroups (process_block s raw offset)
  unfolding process_block receive_block recent_error_push recent_error_clear
  process_block-HasGroups s raw offset g =
      if_both HasGroups (ltb max_errors_tolerated (counted s raw offset []).recent_block_error_sum)
        _ _ (λ _. record { current = g.current; ready = g.ready })
        (λ _. finish_block-HasGroups _ (
          store_received-HasGroups (counted s raw offset []) raw offset (had_error s raw offset [])
            _ (record { current = g.current; ready = g.ready })))

  pub acquire_sync-HasGroups :
      (s : BlockStream F) (offset : Offset) (bit_position : ℕ)
      → HasGroups s
      → HasGroups (acquire_sync s offset bit_position)
  unfolding acquire_sync sync_buffer_push recent_error_clear
  acquire_sync-HasGroups s offset bit_position g =
      if_both HasGroups s.is_in_sync _ _ (λ _. g)
        λ _.
          if_both HasGroups (same_offset offset invalid) _ _ (λ _. g)
            λ _.
              if_both HasGroups
                (sync_buffer_is_sequence_found (sync_buffer_push s offset bit_position)) _ _
                (λ _. record { current = (refl, omega arith); ready = g.ready })
                (λ _. record { current = g.current; ready = g.ready })
