-- ===== src/BlockSync/Stream/Valid.antt =====
-- src/rds/block_sync.c: the invariant of `struct rds_block_stream_state`, kept by every operation.
use mpxcast.Prelude.{
  ℕ, ◌%◌, ◌^◌, ◌≤◌, ◌<◌, ◌≡◌, refl, sym, ap, ◌∙◌, subst, Bool, true, false, List, [], arith, ltb,
  ◌==◌, if◌then◌else◌, length, length-drop_one-append, if_both,
}
use mpxcast.Bits.Or.{shift_in_bit}
use mpxcast.Float.{Float}
use mpxcast.BlockSync.Code.{
  Offset, invalid, a, b, c, c_prime, d, same_offset, block_length, get_next_offset_for,
  calculate_syndrome, get_offset_for_syndrome,
}
use mpxcast.BlockSync.Stream.{
  BlockStream, max_errors_tolerated, recent_error_push, recent_error_clear, sync_buffer_push,
  sync_buffer_is_sequence_found,
}
use mpxcast.BlockSync.Stream.Window.{RecentErrors, recent_error_clear-RecentErrors}
use mpxcast.BlockSync.Stream.Receive.{
  process_block, acquire_sync, init, shift_in, find_block_in_register, complete_block,
  push_bit_with_confidence,
}
use mpxcast.BlockSync.Stream.Sync.{
  receive_block-Keeps, had_error, counted, Keeps-RecentErrors, counted-RecentErrors,
}
use mpxcast.BlockSync.Stream.Ready.{HasGroups, process_block-HasGroups, acquire_sync-HasGroups}

module _ {F : Type 0} where
  -- What holds of the state between two bits: each array has its length and each index its range,
  -- in sync an offset is expected and at most 35 of the blocks in the window had errors, and out of
  -- sync every bit is tried.
  pub record IsValid (s : BlockStream F) : Type 0 where
    pub register : s.input_register < 2 ^ 32
    pub until_pos : 0 < s.bits_until_next_block
    pub until_le : s.bits_until_next_block ≤ block_length
    pub searching : s.is_in_sync ≡ false → s.bits_until_next_block ≡ 1
    pub expecting : s.is_in_sync ≡ true → same_offset s.expected_offset invalid ≡ false
    pub confidences : length s.input_confidence_register ≡ block_length
    pub groups : HasGroups s
    pub offsets : length s.sync_offsets ≡ 8
    pub positions : length s.sync_positions ≡ 8
    pub window : (history : List Bool) × RecentErrors s history
    pub tolerated : s.recent_block_error_sum ≤ max_errors_tolerated

next_is_known : (o : Offset) → same_offset (get_next_offset_for o) invalid ≡ false
unfolding get_next_offset_for
next_is_known invalid = refl
next_is_known a = refl
next_is_known b = refl
next_is_known c = refl
next_is_known c_prime = refl
next_is_known d = refl

module _ {F : Type 0} ⦃float : Float F⦄ where
  -- What the two parts of `rds_find_block_in_register` keep: all but the place in the block.
  pub record IsSound (s : BlockStream F) : Type 0 where
    pub register : s.input_register < 2 ^ 32
    pub expecting : s.is_in_sync ≡ true → same_offset s.expected_offset invalid ≡ false
    pub confidences : length s.input_confidence_register ≡ block_length
    pub offsets : length s.sync_offsets ≡ 8
    pub positions : length s.sync_positions ≡ 8
    pub window : (history : List Bool) × RecentErrors s history
    pub tolerated : s.recent_block_error_sum ≤ max_errors_tolerated

  acquire_sync-IsSound :
      (s : BlockStream F) (offset : Offset) (bit_position : ℕ)
      → IsSound s
      → IsSound (acquire_sync s offset bit_position)
  unfolding acquire_sync sync_buffer_push recent_error_clear
  acquire_sync-IsSound s offset bit_position v =
      if_both IsSound s.is_in_sync _ _ (λ _. v)
        λ _.
          if_both IsSound (same_offset offset invalid) _ _ (λ _. v)
            λ known.
              if_both IsSound
                (sync_buffer_is_sequence_found (sync_buffer_push s offset bit_position)) _ _
                (λ _. record {
                  register = v.register;
                  expecting = λ _. known;
                  confidences = v.confidences;
                  offsets =
                      length-drop_one-append s.sync_offsets offset (omega (arith, v.offsets))
                      ∙ v.offsets;
                  positions =
                      length-drop_one-append s.sync_positions bit_position
                        (omega (arith, v.positions))
                      ∙ v.positions;
                  window = ([], record { held = cleared.held; summed = cleared.summed });
                  tolerated = omega arith;
                })
                (λ _. record {
                  register = v.register;
                  expecting = v.expecting;
                  confidences = v.confidences;
                  offsets =
                      length-drop_one-append s.sync_offsets offset (omega (arith, v.offsets))
                      ∙ v.offsets;
                  positions =
                      length-drop_one-append s.sync_positions bit_position
                        (omega (arith, v.positions))
                      ∙ v.positions;
                  window =
                      (v.window.0, record { held = v.window.1.held; summed = v.window.1.summed });
                  tolerated = v.tolerated;
                })
    where
      cleared : RecentErrors (recent_error_clear s) []
      cleared = recent_error_clear-RecentErrors s

  process_block-IsSound :
      (s : BlockStream F) (raw : ℕ) (offset : Offset)
      → IsSound s
      → IsSound (process_block s raw offset)
  unfolding process_block recent_error_push recent_error_clear
  process_block-IsSound s raw offset v =
      if_both IsSound (ltb max_errors_tolerated before.recent_block_error_sum) _ _
        (λ _. record {
          register = v.register;
          expecting = λ e. cc;
          confidences = v.confidences;
          offsets = v.offsets;
          positions = v.positions;
          window = ([], record { held = cleared.held; summed = cleared.summed });
          tolerated = omega arith;
        })
        (λ few.
          let k = receive_block-Keeps before raw offset (had_error s raw offset []) in
          record {
            register = subst (λ n. n < 2 ^ 32) (sym k.register) v.register;
            expecting = λ _. ap (λ o. same_offset o invalid) k.next ∙ next_is_known _;
            confidences = ap length k.confidences ∙ v.confidences;
            offsets = ap length k.offsets ∙ v.offsets;
            positions = ap length k.positions ∙ v.positions;
            window = (
              _,
              Keeps-RecentErrors _ k (counted-RecentErrors s raw offset v.window.0 v.window.1),
            );
            tolerated = ground (arith, k.errors_sum);
          })
    where
      before : BlockStream F
      before = counted s raw offset []

      cleared : RecentErrors (recent_error_clear s) []
      cleared = recent_error_clear-RecentErrors s

  find_block_in_register-IsSound :
      (s : BlockStream F)
      → IsSound s
      → HasGroups s
      → IsSound (find_block_in_register s) × HasGroups (find_block_in_register s)
  unfolding find_block_in_register
  find_block_in_register-IsSound s v g =
      let raw = s.input_register % 2 ^ block_length in
      let offset = get_offset_for_syndrome (calculate_syndrome raw) in
      let v' = acquire_sync-IsSound s offset s.bit_count v in
      let g' = acquire_sync-HasGroups s offset s.bit_count g in
      let acquired = acquire_sync s offset s.bit_count in
      (
        if_both IsSound acquired.is_in_sync _ _ (λ _. process_block-IsSound acquired raw offset v')
            (λ _. v'),
        if_both HasGroups acquired.is_in_sync _ _
            (λ _. process_block-HasGroups acquired raw offset g') (λ _. g'),
      )

  shift_in-IsSound :
      (s : BlockStream F) (bit : Bool) (confidence : F)
      → IsValid s
      → IsSound (shift_in s bit confidence)
  unfolding shift_in
  shift_in-IsSound s bit confidence v = record {
    register = subst (λ n. n < 2 ^ 32) (sym (shift_in_bit s.input_register bit)) (omega arith);
    expecting = v.expecting;
    confidences =
        length-drop_one-append s.input_confidence_register confidence (omega (arith, v.confidences))
        ∙ v.confidences;
    offsets = v.offsets;
    positions = v.positions;
    window = (v.window.0, record { held = v.window.1.held; summed = v.window.1.summed });
    tolerated = v.tolerated;
  }

  -- From a state that meets the invariant, every pushed bit, with any confidence, leads to a state
  -- that meets it: arrays keep their lengths, indices their ranges, groups their four words of 16
  -- bits, and at most 35 blocks in the window had errors.
  pub push_bit_with_confidence-IsValid :
      (s : BlockStream F) (bit : Bool) (confidence : F)
      → IsValid s
      → IsValid (push_bit_with_confidence s bit confidence)
  unfolding push_bit_with_confidence complete_block
  push_bit_with_confidence-IsValid s bit confidence v =
      if_both IsValid (shifted.bits_until_next_block == 0) _ shifted
        (λ _. record {
          register = found.0.register;
          until_pos =
              if_both (λ n. 0 < n) in_sync block_length 1 (λ _. omega arith) (λ _. omega arith);
          until_le =
              if_both (λ n. n ≤ block_length) in_sync block_length 1 (λ _. omega arith)
                (λ _. omega arith);
          searching = λ lost. ap (λ t. if t then block_length else 1) lost;
          expecting = found.0.expecting;
          confidences = found.0.confidences;
          groups = record { current = found.1.current; ready = found.1.ready };
          offsets = found.0.offsets;
          positions = found.0.positions;
          window = (
            found.0.window.0,
            record { held = found.0.window.1.held; summed = found.0.window.1.summed },
          );
          tolerated = found.0.tolerated;
        })
        (λ more. record {
          register = sound.register;
          until_pos = unfold shift_in in ground arith;
          until_le = unfold shift_in in omega arith;
          searching = unfold shift_in in λ lost. absurd (ground (arith, v.searching lost));
          expecting = sound.expecting;
          confidences = sound.confidences;
          groups = groups;
          offsets = sound.offsets;
          positions = sound.positions;
          window = sound.window;
          tolerated = sound.tolerated;
        })
    where
      shifted : BlockStream F
      shifted = shift_in s bit confidence

      sound : IsSound shifted
      sound = shift_in-IsSound s bit confidence v

      groups : HasGroups shifted
      groups = unfold shift_in in record { current = v.groups.current; ready = v.groups.ready }

      found : IsSound (find_block_in_register shifted) × HasGroups (find_block_in_register shifted)
      found = find_block_in_register-IsSound shifted sound groups

      in_sync : Bool
      in_sync = (find_block_in_register shifted).is_in_sync

  -- The state that `rds_block_stream_init` leaves meets the invariant.
  pub init-IsValid : IsValid {F = F} init
  unfolding init recent_error_clear
  init-IsValid = record {
    register = omega arith;
    until_pos = omega arith;
    until_le = omega arith;
    searching = λ _. refl;
    expecting = λ e. cc;
    confidences = refl;
    groups = record { current = (refl, omega arith); ready = (refl, omega arith) };
    offsets = refl;
    positions = refl;
    window = (
      [],
      record {
        held = (recent_error_clear-RecentErrors (init {F = F})).held;
        summed = (recent_error_clear-RecentErrors (init {F = F})).summed;
      },
    );
    tolerated = omega arith;
  }
