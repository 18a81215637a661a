-- ===== src/Parser/Process.antt =====
-- src/rds/parser.c: `rds_parser_process_group`, in the steps of its body, and the readers of the
-- state. The function returns false, here `none`, before it changes anything.
use mpxcast.Prelude.{
  ℕ, ◌+◌, ◌-◌, ◌*◌, ◌%◌, ◌^◌, Bool, true, false, not, ◌&&◌, ◌||◌, Option, none, some, [], ◌∷◌, ltb,
  ◌==◌, if◌then◌else◌, get_or, set, replicate, u8, ◌>>>◌, of_bool,
}
use mpxcast.Float.{Float, float_zero}
use mpxcast.BlockSync.Stream.{Block, Group}
use mpxcast.BlockSync.Stream.Receive.{zero_block}
use mpxcast.CString.{strcmp_equal, strcpy}
use mpxcast.Parser.{
  StationInfo, StationEvent, ParserState, station_info_init, has_bit, get_group_type_number,
  get_group_version, get_pty, block_is_usable_for_text, group_text_quality, group_text_quality_2a,
}
use mpxcast.Parser.Update.{
  update_ps, clear_radiotext, update_radiotext_chars, build_ps_preview, build_radiotext_preview,
}
use mpxcast.Parser.Complete.{radiotext_is_complete}

-- `event->corrected_block_count`: a sum of casts, stored in a `uint8_t`.
unfoldable pub count_corrected : {F : Type 0} → Block F → Block F → Block F → Block F → ℕ
count_corrected block1 block2 block3 block4 = u8 (
    of_bool block1.had_errors
    + of_bool block2.had_errors
    + of_bool block3.had_errors
    + of_bool block4.had_errors)

-- '0' to '9', or 'A' to 'F'.
unfoldable pub group_type_char : ℕ → ℕ
group_type_char group_type = if ltb group_type 10 then 48 + group_type else 65 + (group_type - 10)

abbrev pub event_init : StationEvent
event_init = record {
  station_changed = false;
  ps_changed = false;
  radiotext_changed = false;
  ps_preview_changed = false;
  radiotext_preview_changed = false;
  corrected_block_count = 0;
  ps_preview = replicate 9 0;
  radiotext_preview = replicate 65 0;
  info = station_info_init;
}

module _ {F : Type 0} where
  -- The assignments to `state->info` from the first two blocks.
  unfoldable pub update_info : Block F → Block F → StationInfo → StationInfo
  unfolding has_bit
  update_info first second info =
      let block2 = second.data_bits in
      let accept = block_is_usable_for_text first || not info.has_pi in
      record info {
        has_pi = if accept then true else info.has_pi;
        pi = if accept then first.data_bits else info.pi;
        has_group = true;
        group =
            set
              (set (set info.group 0 (group_type_char (get_group_type_number block2))) 1
                (get_group_version block2))
              2 0;
        tp = has_bit block2 10;
        pty = get_pty block2;
      }

module _ {F : Type 0} ⦃float : Float F⦄ where
  unfoldable pub parser_init : ParserState F
  parser_init = record {
    info = station_info_init;
    radiotext_ab = false;
    radiotext_ab_valid = false;
    ps_seen_mask = 0;
    radiotext_seen_mask = 0;
    ps_segment_quality = replicate 4 float_zero;
    radiotext_quality = replicate 64 float_zero;
    last_reported_ps = replicate 9 0;
    last_reported_radiotext = replicate 65 0;
    last_reported_ps_preview = replicate 9 0;
    last_reported_radiotext_preview = replicate 65 0;
  }

  -- Group type 0.
  unfoldable pub process_type_0 : Block F → Block F → ParserState F → ParserState F
  process_type_0 second fourth state =
      let block2 = second.data_bits in
      let updated = record state { info = record state.info { ta = has_bit block2 4 } } in
      if block_is_usable_for_text second && block_is_usable_for_text fourth
      then update_ps updated block2 fourth.data_bits (group_text_quality second fourth)
      else updated

  -- Group type 2: the A/B flag, which clears the text when it changes.
  unfoldable pub switch_ab : Bool → ParserState F → ParserState F
  switch_ab ab state =
      let differ = if ab then not state.radiotext_ab else state.radiotext_ab in
      if not state.radiotext_ab_valid || differ
      then clear_radiotext (record state { radiotext_ab = ab; radiotext_ab_valid = true })
      else state

  -- Group type 2: the characters of versions A and B.
  unfoldable pub write_radiotext : Block F → Block F → Block F → ParserState F → ParserState F
  write_radiotext second third fourth state =
      let segment_address = second.data_bits % 2 ^ 4 in
      let high = λ (block : Block F). u8 (block.data_bits >>> 8) in
      let low = λ (block : Block F). u8 (block.data_bits % 2 ^ 8) in
      if get_group_version second.data_bits == 65
      then if block_is_usable_for_text second
          && block_is_usable_for_text third
          && block_is_usable_for_text fourth
        then update_radiotext_chars state (segment_address * 4)
            (high third ∷ low third ∷ high fourth ∷ low fourth ∷ [])
            (group_text_quality_2a second third fourth)
        else state
      else if block_is_usable_for_text second && block_is_usable_for_text fourth
      then update_radiotext_chars state (segment_address * 2) (high fourth ∷ low fourth ∷ [])
          (group_text_quality second fourth)
      else state

  unfoldable pub process_type_2 : Block F → Block F → Block F → ParserState F → ParserState F
  process_type_2 second third fourth state =
      write_radiotext second third fourth (switch_ab (has_bit second.data_bits 4) state)

  -- Everything before the event is filled in: the new station information.
  unfoldable pub update_station :
      Block F → Block F → Block F → Block F → ParserState F → ParserState F
  update_station first second third fourth state =
      let named = record state { info = update_info first second state.info } in
      let group_type = get_group_type_number second.data_bits in
      let texted = if group_type == 0 then process_type_0 second fourth named else named in
      if group_type == 2 then process_type_2 second third fourth texted else texted

  -- The event and the texts that were reported last.
  unfoldable pub report : ℕ → ParserState F → StationEvent × ParserState F
  report corrected_block_count state =
      let ps_preview = build_ps_preview state event_init.ps_preview in
      let radiotext_preview = build_radiotext_preview state event_init.radiotext_preview in
      let ps_changed =
        not (strcmp_equal state.last_reported_ps state.info.ps)
        && not (get_or state.info.ps 0 0 == 0) in
      let radiotext_changed =
        radiotext_is_complete state
        && not (strcmp_equal state.last_reported_radiotext state.info.radiotext)
        && not (get_or state.info.radiotext 0 0 == 0) in
      let ps_preview_changed = not (strcmp_equal state.last_reported_ps_preview ps_preview) in
      let radiotext_preview_changed =
        not (strcmp_equal state.last_reported_radiotext_preview radiotext_preview) in
      (
        record {
          station_changed = true;
          ps_changed = ps_changed;
          radiotext_changed = radiotext_changed;
          ps_preview_changed = ps_preview_changed;
          radiotext_preview_changed = radiotext_preview_changed;
          corrected_block_count = corrected_block_count;
          ps_preview = ps_preview;
          radiotext_preview = radiotext_preview;
          info = state.info;
        },
        record state {
          last_reported_ps =
              if ps_changed
              then strcpy state.last_reported_ps state.info.ps
              else state.last_reported_ps;
          last_reported_radiotext =
              if radiotext_changed
              then strcpy state.last_reported_radiotext state.info.radiotext
              else state.last_reported_radiotext;
          last_reported_ps_preview =
              if ps_preview_changed
              then strcpy state.last_reported_ps_preview ps_preview
              else state.last_reported_ps_preview;
          last_reported_radiotext_preview =
              if radiotext_preview_changed
              then strcpy state.last_reported_radiotext_preview radiotext_preview
              else state.last_reported_radiotext_preview;
        },
      )

  unfoldable pub process_group : ParserState F → Group F → Option (StationEvent × ParserState F)
  process_group state blocks =
      let first = get_or blocks 0 zero_block in
      let second = get_or blocks 1 zero_block in
      let third = get_or blocks 2 zero_block in
      let fourth = get_or blocks 3 zero_block in
      if not (first.is_received && second.is_received)
      then none
      else some (
          report (count_corrected first second third fourth)
            (update_station first second third fourth state))

module _ {F : Type 0} where
  abbrev pub get_station_info : ParserState F → StationInfo
  get_station_info state = state.info

  abbrev pub has_complete_radiotext : ParserState F → Bool
  has_complete_radiotext state = radiotext_is_complete state
