-- ===== src/BlockSync/Stream/Feed.antt =====
-- src/rds/block_sync.c, `rds_block_stream_push_bit_with_confidence` in sync, over whole blocks: the
-- bits of four error-free blocks give one group that holds their data.
use mpxcast.Prelude.{
  ℕ, ◌+◌, ◌*◌, ◌%◌, ◌^◌, ◌≤◌, ◌<◌, ◌≡◌, refl, ap, ◌∙◌, Bool, true, false, not, List, [], ◌∷◌, map,
  arith, ltb, ◌==◌, if◌then◌else◌, length, u16, u64, ◌>>>◌, of_bool,
}
use native.Mathlib.Nat.{pow-suc}
use mpxcast.Bits.Or.{shift_in_bit}
use mpxcast.Float.{Float}
use mpxcast.BlockSync.Code.{Offset, same_offset, checkword_length}
use mpxcast.BlockSync.Stream.{
  Block, BlockStream, max_errors_tolerated, recent_error_push, recent_error_clear,
}
use mpxcast.BlockSync.Stream.Receive.{
  correct_errors, received_block, store_block, finish_block, receive_block, process_block,
  get_block_confidence, adjust_expected, shift_in, complete_block, push_bit_with_confidence,
}
use mpxcast.BlockSync.Stream.Sync.{counted, had_error}
use mpxcast.BlockSync.Stream.Window.{RecentErrors, recent_error_push-le}

-- The number that bits spell, the highest first, behind the bits of `r`.
unfoldable pub spell : ℕ → List Bool → ℕ
spell r [] = r
spell r (bit ∷ bits) = spell (r * 2 + of_bool bit) bits

spell-split : (r : ℕ) (bits : List Bool) → spell r bits ≡ r * 2 ^ length bits + spell 0 bits
unfolding spell
spell-split r [] = omega arith
spell-split r (bit ∷ bits) = omega (
  arith,
  spell-split (r * 2 + of_bool bit) bits,
  spell-split (0 * 2 + of_bool bit) bits,
  pow-suc 2 (length bits),
  ap (λ (t : ℕ). r * t) (pow-suc 2 (length bits)),
)

of_bool-le : (bit : Bool) → of_bool bit ≤ 1
of_bool-le true = omega arith
of_bool-le false = omega arith

mul-le-mul : (k : ℕ) {n m : ℕ} → n ≤ m → n * k ≤ m * k
mul-le-mul k h = grind arith

spell-lt : (r : ℕ) (bits : List Bool) → spell r bits < (r + 1) * 2 ^ length bits
unfolding spell
spell-lt r [] = omega arith
spell-lt r (bit ∷ bits) = omega (
  arith,
  spell-lt (r * 2 + of_bool bit) bits,
  of_bool-le bit,
  ap (λ (t : ℕ). (r + 1) * t) (pow-suc 2 (length bits)),
  mul-le-mul (2 ^ length bits) {n = r * 2 + of_bool bit + 1} {m = (r + 1) * 2}
      (omega (arith, of_bool-le bit)),
)

-- Only the last 26 bits of the register count.
spell_congr :
    (r q : ℕ) (bits : List Bool)
    → r % 2 ^ 26 ≡ q % 2 ^ 26
    → spell r bits % 2 ^ 26 ≡ spell q bits % 2 ^ 26
unfolding spell
spell_congr r q [] h = h
spell_congr r q (bit ∷ bits) h =
    spell_congr (r * 2 + of_bool bit) (q * 2 + of_bool bit) bits (omega arith)

pub spell_block :
    (r : ℕ) (bits : List Bool) → length bits ≡ 26 → spell r bits % 2 ^ 26 ≡ spell 0 bits
spell_block r bits h =
    omega
      (arith, spell-split r bits, spell-lt 0 bits, ap (λ k. 2 ^ k) h, ap (λ (k : ℕ). r * 2 ^ k) h)

module _ {F : Type 0} ⦃float : Float F⦄ where
  -- Bits with their confidences, pushed one after the other.
  unfoldable pub push_bits : BlockStream F → List (Bool × F) → BlockStream F
  push_bits s [] = s
  push_bits s ((bit, confidence) ∷ rest) =
      push_bits (push_bit_with_confidence s bit confidence) rest

  unfoldable pub shift_all : BlockStream F → List (Bool × F) → BlockStream F
  shift_all s [] = s
  shift_all s ((bit, confidence) ∷ rest) = shift_all (shift_in s bit confidence) rest

  pub shift_all-register :
      (s : BlockStream F) (bits : List (Bool × F))
      → (shift_all s bits).input_register % 2 ^ 26
        ≡ spell s.input_register (map (λ (x : Bool × F). x.0) bits) % 2 ^ 26
  unfolding shift_all spell
  shift_all-register s [] = refl
  shift_all-register s ((bit, confidence) ∷ rest) =
      shift_all-register (shift_in s bit confidence) rest
      ∙ spell_congr (shift_in s bit confidence).input_register (s.input_register * 2 + of_bool bit)
          (map (λ (x : Bool × F). x.0) rest)
          (unfold shift_in in omega (arith, shift_in_bit s.input_register bit))

  -- What the shifts leave alone.
  pub record Shifted (s t : BlockStream F) : Type 0 where
    pub in_sync : t.is_in_sync ≡ s.is_in_sync
    pub expected : t.expected_offset ≡ s.expected_offset
    pub current : t.current_group ≡ s.current_group
    pub errors : t.recent_block_errors ≡ s.recent_block_errors
    pub pos : t.recent_block_errors_pos ≡ s.recent_block_errors_pos
    pub count : t.recent_block_errors_count ≡ s.recent_block_errors_count
    pub sum : t.recent_block_error_sum ≡ s.recent_block_error_sum

  pub shift_all-Shifted :
      (s : BlockStream F) (bits : List (Bool × F)) → Shifted s (shift_all s bits)
  unfolding shift_all shift_in
  shift_all-Shifted s [] = ground arith
  shift_all-Shifted s ((bit, confidence) ∷ rest) =
      let h = shift_all-Shifted (shift_in s bit confidence) rest in
      record {
        in_sync = h.in_sync;
        expected = h.expected;
        current = h.current;
        errors = h.errors;
        pos = h.pos;
        count = h.count;
        sum = h.sum;
      }

  pub shift_all-RecentErrors :
      (bits : List (Bool × F)) (s : BlockStream F) (history : List Bool)
      → RecentErrors s history
      → RecentErrors (shift_all s bits) history
  unfolding shift_all shift_in
  shift_all-RecentErrors [] s history r = r
  shift_all-RecentErrors ((bit, confidence) ∷ rest) s history r =
      shift_all-RecentErrors rest (shift_in s bit confidence) history
        (record { held = r.held; summed = r.summed })

  -- Inside a block the bits are only shifted in, and the last bit of the block completes it.
  pub push_bits_to_end :
      (bits : List (Bool × F)) (s : BlockStream F)
      → 0 < length bits
      → length bits ≡ s.bits_until_next_block
      → s.bits_until_next_block ≤ 26
      → push_bits s bits ≡ complete_block (shift_all s bits)
  unfolding push_bits shift_all push_bit_with_confidence
  push_bits_to_end [] s h e le = absurd (omega arith)
  push_bits_to_end ((bit, confidence) ∷ []) s h e le =
      let last : ((shift_in s bit confidence).bits_until_next_block == 0) ≡ true =
        unfold shift_in in ground arith in
      rw last
  push_bits_to_end ((bit, confidence) ∷ x ∷ rest) s h e le =
      let inside : ((shift_in s bit confidence).bits_until_next_block == 0) ≡ false =
        unfold shift_in in ground arith in
      rw inside (
        push_bits_to_end (x ∷ rest) (shift_in s bit confidence) (omega arith)
          (unfold shift_in in omega arith) (unfold shift_in in omega arith))

  -- The block that is stored for 26 bits without errors.
  abbrev pub clean_block : F → ℕ → Block F
  clean_block confidence raw = received_block confidence (u16 (raw >>> checkword_length)) false 0

  receive_block_clean :
      (t : BlockStream F) (raw : ℕ) (offset : Offset)
      → same_offset offset t.expected_offset ≡ true
      → receive_block t raw offset false
        ≡ finish_block (store_block t (clean_block (get_block_confidence t) raw))
  unfolding receive_block correct_errors
  receive_block_clean t raw offset clean =
      ap
        (λ test.
          finish_block
            (if test then store_block t (clean_block (get_block_confidence t) raw) else t))
        clean

  module _ (s : BlockStream F) (raw : ℕ) (offset : Offset) (history : List Bool) where
    abbrev pub after_push : BlockStream F
    after_push = counted s raw offset []

    pub process_block_clean :
        RecentErrors s history
        → s.recent_block_error_sum ≤ max_errors_tolerated
        → same_offset offset (adjust_expected s.expected_offset offset) ≡ true
        → process_block s raw offset
          ≡ finish_block
              (store_block after_push (clean_block (get_block_confidence after_push) raw))
    unfolding process_block
    process_block_clean r few clean =
        ap
          (λ test.
            if test
            then recent_error_clear
                (record after_push { is_in_sync = false; sync_lost_event = true })
            else receive_block after_push raw offset (had_error s raw offset []))
          tolerated
        ∙ ap (receive_block after_push raw offset) fine
        ∙ receive_block_clean after_push raw offset (unfold recent_error_push in clean)
      where
        fine : had_error s raw offset [] ≡ false
        fine = ap not clean

        before : BlockStream F
        before = record s {
          total_blocks_seen = u64 (s.total_blocks_seen + 1);
          expected_offset = adjust_expected s.expected_offset offset;
        }

        tolerated : ltb max_errors_tolerated after_push.recent_block_error_sum ≡ false
        tolerated = ground (
          arith,
          ap (λ e. (recent_error_push before e).recent_block_error_sum) fine,
          recent_error_push-le before history (record { held = r.held; summed = r.summed }),
        )
