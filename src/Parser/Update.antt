-- ===== src/Parser/Update.antt =====
-- src/rds/parser.c: `rds_update_ps`, `rds_clear_radiotext`, `rds_update_radiotext_chars` and the
-- previews.
use mpxcast.Prelude.{
  ℕ, zero, suc, ◌+◌, ◌*◌, ◌%◌, ◌^◌, bit_or, Bool, not, ◌&&◌, ◌||◌, List, [], ◌∷◌, leb, ◌==◌,
  if◌then◌else◌, get_or, set, replicate, u8, u64, ◌>>>◌, ◌<<<◌,
}
use mpxcast.Float.{Float, float_zero}
use mpxcast.Parser.{ParserState, has_bit, sanitize_char, trim_string}

-- The places of a segment of the name or of a preview: two neighbouring characters.
abbrev pub set_pair : List ℕ → ℕ → ℕ → ℕ → List ℕ
set_pair text position x y = set (set text position x) (position + 1) y

module _ {F : Type 0} where
  unfoldable pub ps_seen : ParserState F → ℕ → Bool
  ps_seen state segment = has_bit state.ps_seen_mask segment

  unfoldable pub radiotext_seen : ParserState F → ℕ → Bool
  radiotext_seen state i = has_bit state.radiotext_seen_mask i

  -- The loop of `rds_build_ps_preview` at `segment`, with `n` rounds left.
  unfoldable pub ps_preview_loop : ParserState F → List ℕ → ℕ → ℕ → List ℕ
  ps_preview_loop state preview zero segment = preview
  ps_preview_loop state preview (suc n) segment =
      let seen = ps_seen state segment in
      let position = segment * 2 in
      let shown = λ (i : ℕ).
        let value = get_or state.info.ps i 0 in if seen && not (value == 0) then value else 46 in
      ps_preview_loop state (set_pair preview position (shown position) (shown (position + 1))) n
        (segment + 1)

  unfoldable pub build_ps_preview : ParserState F → List ℕ → List ℕ
  build_ps_preview state preview = set (ps_preview_loop state preview 4 0) 8 0

  -- The loop of `rds_build_radiotext_preview` at `i`, with `n` rounds left.
  unfoldable pub radiotext_preview_loop : ParserState F → List ℕ → ℕ → ℕ → List ℕ
  radiotext_preview_loop state preview zero i = preview
  radiotext_preview_loop state preview (suc n) i =
      let value = get_or state.info.radiotext i 0 in
      let shown = if radiotext_seen state i then if value == 0 then 32 else value else 46 in
      radiotext_preview_loop state (set preview i shown) n (i + 1)

  unfoldable pub build_radiotext_preview : ParserState F → List ℕ → List ℕ
  build_radiotext_preview state preview = set (radiotext_preview_loop state preview 64 0) 64 0

module _ {F : Type 0} ⦃float : Float F⦄ where
  -- `rds_update_ps` from the first write on.
  unfoldable pub write_ps : ParserState F → ℕ → ℕ → ℕ → F → ParserState F
  write_ps state segment first_char second_char quality =
      let raise =
        not (ps_seen state segment)
        || float.lt (get_or state.ps_segment_quality segment float_zero) quality in
      let text = set (set_pair state.info.ps (segment * 2) first_char second_char) 8 0 in
      record state {
        info = record state.info { ps = trim_string text };
        ps_seen_mask = u8 (bit_or state.ps_seen_mask (1 <<< segment));
        ps_segment_quality =
            if raise
            then set state.ps_segment_quality segment quality
            else state.ps_segment_quality;
      }

  unfoldable pub update_ps : ParserState F → ℕ → ℕ → F → ParserState F
  update_ps state block2 block4 quality =
      let segment_address = u8 (block2 % 2 ^ 2) in
      let position = segment_address * 2 in
      let first_char = sanitize_char (u8 (block4 >>> 8)) in
      let second_char = sanitize_char (u8 (block4 % 2 ^ 8)) in
      let has_existing = ps_seen state segment_address in
      let same_chars =
        has_existing
        && (get_or state.info.ps position 0 == first_char)
        && (get_or state.info.ps (position + 1) 0 == second_char) in
      if has_existing
        && not same_chars
        && float.lt quality (get_or state.ps_segment_quality segment_address float_zero)
      then state
      else write_ps state segment_address first_char second_char quality

  unfoldable pub clear_radiotext : ParserState F → ParserState F
  clear_radiotext state = record state {
    info = record state.info { radiotext = replicate 65 0 };
    radiotext_quality = replicate 64 float_zero;
    radiotext_seen_mask = 0;
  }

  -- One character of the loop of `rds_update_radiotext_chars`, below index 64: what is written.
  unfoldable pub write_radiotext_char : ParserState F → ℕ → ℕ → F → ParserState F
  write_radiotext_char state text_index sanitized quality =
      let raise =
        not (radiotext_seen state text_index)
        || float.lt (get_or state.radiotext_quality text_index float_zero) quality in
      record state {
        info = record state.info { radiotext = set state.info.radiotext text_index sanitized };
        radiotext_seen_mask = bit_or state.radiotext_seen_mask (u64 (1 <<< text_index));
        radiotext_quality =
            if raise
            then set state.radiotext_quality text_index quality
            else state.radiotext_quality;
      }

  -- The same, and whether it is: `continue` leaves the state alone.
  unfoldable pub update_radiotext_char : ParserState F → ℕ → ℕ → F → ParserState F
  update_radiotext_char state text_index char quality =
      let sanitized = sanitize_char char in
      let seen = radiotext_seen state text_index in
      let same_char = seen && (get_or state.info.radiotext text_index 0 == sanitized) in
      if seen
        && not same_char
        && float.lt quality (get_or state.radiotext_quality text_index float_zero)
      then state
      else write_radiotext_char state text_index sanitized quality

  -- The loop at `text_index`, over the characters that are left; it breaks at 64.
  unfoldable pub radiotext_loop : ParserState F → ℕ → List ℕ → F → ParserState F
  radiotext_loop state text_index [] quality = state
  radiotext_loop state text_index (char ∷ chars) quality =
      let rest =
        radiotext_loop (update_radiotext_char state text_index char quality) (text_index + 1) chars
          quality in
      if leb 64 text_index then state else rest

  unfoldable pub update_radiotext_chars : ParserState F → ℕ → List ℕ → F → ParserState F
  update_radiotext_chars state position chars quality =
      let written = radiotext_loop state position chars quality in
      record written { info = record written.info { radiotext = set written.info.radiotext 64 0 } }
