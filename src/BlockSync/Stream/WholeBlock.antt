-- ===== src/BlockSync/Stream/WholeBlock.antt =====
-- src/rds/block_sync.c: what the 26 bits of one error-free block do to a stream in sync.
use mpxcast.Prelude.{
  ℕ, ◌%◌, ◌^◌, ◌≡◌, refl, sym, ap, ◌∙◌, subst, Bool, true, false, ◌&&◌, List, [], ◌∷◌, map, arith,
  if◌then◌else◌, ==_refl, length, set, length-map, if_both,
}
use mpxcast.Float.{Float}
use mpxcast.BlockSync.Code.{
  Offset, invalid, a, b, c, c_prime, d, same_offset, offset_code, get_block_number_for_offset,
  get_next_offset_for, calculate_syndrome, get_offset_for_syndrome,
}
use mpxcast.BlockSync.Stream.{Block, BlockStream, recent_error_push}
use mpxcast.BlockSync.Stream.Receive.{
  handle_ready_group, store_block, finish_block, process_block, get_block_confidence,
  adjust_expected, acquire_sync, find_block_in_register, complete_block, push_bit_with_confidence,
}
use mpxcast.BlockSync.Stream.Valid.{IsValid, push_bit_with_confidence-IsValid}
use mpxcast.BlockSync.Stream.Feed.{
  spell, spell_block, push_bits, shift_all, Shifted, shift_all-register, shift_all-Shifted,
  shift_all-RecentErrors, push_bits_to_end, clean_block, after_push, process_block_clean,
}

adjusted_is_known :
    (expected offset : Offset)
    → same_offset expected invalid ≡ false
    → adjust_expected expected offset ≡ offset
    → same_offset offset invalid ≡ false
unfolding adjust_expected
adjusted_is_known expected offset known fits =
    ap (λ o. same_offset o invalid) (sym fits)
    ∙ if_both (λ o. same_offset o invalid ≡ false)
        (same_offset expected c && same_offset offset c_prime) c_prime expected (λ _. refl)
        (λ _. known)

module _ {F : Type 0} ⦃float : Float F⦄ where
  abbrev pub bits_of : List (Bool × F) → ℕ
  bits_of bits = spell 0 (map (λ (x : Bool × F). x.0) bits)

  abbrev pub offset_of : List (Bool × F) → Offset
  offset_of bits = get_offset_for_syndrome (calculate_syndrome (bits_of bits))

  pub push_bits-IsValid :
      (bits : List (Bool × F)) (s : BlockStream F) → IsValid s → IsValid (push_bits s bits)
  unfolding push_bits
  push_bits-IsValid [] s v = v
  push_bits-IsValid ((bit, confidence) ∷ rest) s v =
      push_bits-IsValid rest (push_bit_with_confidence s bit confidence)
        (push_bit_with_confidence-IsValid s bit confidence v)

  -- What 26 bits of an expected block do to a stream in sync.
  pub record TakesBlock (s t : BlockStream F) (o : Offset) (raw : ℕ) : Type 0 where
    pub in_sync : t.is_in_sync ≡ true
    pub until : t.bits_until_next_block ≡ 26
    pub expected : t.expected_offset ≡ get_next_offset_for o
    pub confidence : F
    pub stored :
        same_offset o d ≡ false
        → t.current_group
          ≡ set s.current_group (get_block_number_for_offset o) (clean_block confidence raw)
    pub handed :
        same_offset o d ≡ true
        → (t.ready_group
            ≡ set s.current_group (get_block_number_for_offset o) (clean_block confidence raw))
          × (t.has_group_ready ≡ true)

  -- What the end of a block makes of the stored block, at the offset `o`.
  abbrev Finishes : BlockStream F → Block F → Offset → Type 0
  Finishes s block o =
      let t = finish_block (store_block s block) in
      let group = set s.current_group (get_block_number_for_offset o) block in
      (t.is_in_sync ≡ s.is_in_sync)
      × (t.expected_offset ≡ get_next_offset_for o)
      × (same_offset o d ≡ false → t.current_group ≡ group)
      × (same_offset o d ≡ true → (t.ready_group ≡ group) × (t.has_group_ready ≡ true))

  finish_at :
      (s : BlockStream F) (block : Block F) (o : Offset)
      → s.expected_offset ≡ o
      → same_offset o invalid ≡ false
      → Finishes s block o
  unfolding finish_block store_block handle_ready_group get_next_offset_for
      get_block_number_for_offset
  finish_at s block invalid e known = absurd (ground arith)
  finish_at s block a e known = ground arith
  finish_at s block b e known = ground arith
  finish_at s block c e known = ground arith
  finish_at s block c_prime e known = ground arith
  finish_at s block d e known = ground arith

  find_in_sync :
      (s : BlockStream F)
      → s.is_in_sync ≡ true
      → find_block_in_register s
        ≡ process_block s
            (s.input_register % 2 ^ 26)
            (get_offset_for_syndrome (calculate_syndrome (s.input_register % 2 ^ 26)))
  unfolding find_block_in_register acquire_sync
  find_in_sync s sync =
      ap (λ (q : BlockStream F). if q.is_in_sync then process_block q raw offset else q) stays
      ∙ ap (λ test. if test then process_block s raw offset else s) sync
    where
      raw : ℕ
      raw = s.input_register % 2 ^ 26

      offset : Offset
      offset = get_offset_for_syndrome (calculate_syndrome raw)

      stays : acquire_sync s offset s.bit_count ≡ s
      stays = if_both (λ q. q ≡ s) s.is_in_sync s _ (λ _. refl) (λ no_sync. cc)

  push_bits-TakesBlock :
      (s : BlockStream F) (bits : List (Bool × F))
      → IsValid s
      → s.is_in_sync ≡ true
      → s.bits_until_next_block ≡ 26
      → length bits ≡ 26
      → adjust_expected s.expected_offset (offset_of bits) ≡ offset_of bits
      → TakesBlock s (push_bits s bits) (offset_of bits) (bits_of bits)
  unfolding complete_block recent_error_push
  push_bits-TakesBlock s bits v sync until len fits =
      subst (λ t. TakesBlock s t o raw)
        (sym (push_bits_to_end bits s (omega arith) (len ∙ sym until) v.until_le))
        (subst
          (λ (f : BlockStream F).
            TakesBlock s (record f { bits_until_next_block = if f.is_in_sync then 26 else 1 }) o
              raw)
          (sym found)
          (record {
            in_sync = finished.0 ∙ shifted.in_sync ∙ sync;
            until = ap (λ t. if t then 26 else 1) (finished.0 ∙ shifted.in_sync ∙ sync);
            expected = finished.1;
            confidence = get_block_confidence pushed;
            stored = λ e. finished.2 e ∙ same_group;
            handed = λ e. ((finished.3 e).0 ∙ same_group, (finished.3 e).1);
          }))
    where
      o : Offset
      o = offset_of bits

      raw : ℕ
      raw = bits_of bits

      t : BlockStream F
      t = shift_all s bits

      shifted : Shifted s t
      shifted = shift_all-Shifted s bits

      pushed : BlockStream F
      pushed = after_push t raw o v.window.0

      block : Block F
      block = clean_block (get_block_confidence pushed) raw

      in_register : t.input_register % 2 ^ 26 ≡ raw
      in_register =
          shift_all-register s bits
          ∙ spell_block s.input_register (map (λ (x : Bool × F). x.0) bits)
              (length-map bits _ ∙ len)

      expected_is_o : adjust_expected t.expected_offset o ≡ o
      expected_is_o = ap (λ e. adjust_expected e o) shifted.expected ∙ fits

      found : find_block_in_register t ≡ finish_block (store_block pushed block)
      found =
          find_in_sync t (shifted.in_sync ∙ sync)
          ∙ ap (λ r. process_block t r (get_offset_for_syndrome (calculate_syndrome r))) in_register
          ∙ process_block_clean t raw o v.window.0
              (shift_all-RecentErrors bits s v.window.0 v.window.1)
              (omega (arith, shifted.sum, v.tolerated))
              (ap (same_offset o) expected_is_o ∙ ==_refl (offset_code o))

      finished : Finishes pushed block o
      finished =
          finish_at pushed block o expected_is_o
            (adjusted_is_known s.expected_offset o (v.expecting sync) fits)

      same_group :
          set t.current_group (get_block_number_for_offset o) block
          ≡ set s.current_group (get_block_number_for_offset o) block
      same_group = ap (λ g. set g (get_block_number_for_offset o) block) shifted.current

  pub take_block :
      (s : BlockStream F) (bits : List (Bool × F)) (o : Offset)
      → IsValid s
      → s.is_in_sync ≡ true
      → s.bits_until_next_block ≡ 26
      → length bits ≡ 26
      → offset_of bits ≡ o
      → adjust_expected s.expected_offset o ≡ o
      → TakesBlock s (push_bits s bits) o (bits_of bits)
  take_block s bits o v sync until len e fits =
      subst (λ x. TakesBlock s (push_bits s bits) x (bits_of bits)) e
        (push_bits-TakesBlock s bits v sync until len
          (subst (λ x. adjust_expected s.expected_offset x ≡ x) (sym e) fits))
