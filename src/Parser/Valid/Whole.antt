-- ===== src/Parser/Valid/Whole.antt =====
-- src/rds/parser.c: `rds_parser_process_group` keeps the invariant.
use mpxcast.Prelude.{
  ℕ, ◌≡◌, refl, subst, Bool, true, not, ◌&&◌, some, List, arith, ◌==◌, if◌then◌else◌, get_or,
  if_both,
}
use mpxcast.Float.{Float}
use mpxcast.BlockSync.Stream.{Block, Group}
use mpxcast.BlockSync.Stream.Receive.{zero_block}
use mpxcast.CString.{strcpy}
use mpxcast.Parser.{
  StationInfo, StationEvent, ParserState, block_is_usable_for_text, has_bit, get_group_version,
  get_group_type_number, group_text_quality, group_text_quality_2a,
}
use mpxcast.Parser.Text.{IsText, set_nul-IsText, strcpy-IsText}
use mpxcast.Parser.Update.{
  build_ps_preview, build_radiotext_preview, radiotext_loop, update_radiotext_chars,
}
use mpxcast.Parser.Process.{
  process_type_0, switch_ab, write_radiotext, process_type_2, update_station, report,
  count_corrected, process_group, event_init, parser_init,
}
use mpxcast.Parser.Valid.{
  IsInfo, IsValid, IsEvent, empty-IsText, ps_preview_loop-IsText, radiotext_preview_loop-IsText,
  update_info-IsInfo, update_ps-IsValid, clear_radiotext-IsValid, radiotext_loop-IsValid,
}

copied :
    (n : ℕ) (changed : Bool) (old text : List ℕ)
    → IsText n old
    → IsText n text
    → IsText n (if changed then strcpy old text else old)
copied n changed old text held new =
    if_both (IsText n) changed _ _ (λ _. strcpy-IsText n old text held new) (λ _. held)

module _ {F : Type 0} where
  -- New station information that is sound, and nothing else.
  with_info :
      (s : ParserState F) (info : StationInfo)
      → IsInfo info
      → IsValid s
      → IsValid (record s { info = info })
  with_info s info sound v = record {
    info = sound;
    ps_mask = v.ps_mask;
    radiotext_mask = v.radiotext_mask;
    ps_quality = v.ps_quality;
    text_quality = v.text_quality;
    reported_ps = v.reported_ps;
    reported_radiotext = v.reported_radiotext;
    reported_ps_preview = v.reported_ps_preview;
    reported_radiotext_preview = v.reported_radiotext_preview;
  }

  same_texts :
      {s : ParserState F} {ab valid : Bool}
      → IsValid s
      → IsValid (record s { radiotext_ab = ab; radiotext_ab_valid = valid })
  same_texts v = record {
    info = v.info;
    ps_mask = v.ps_mask;
    radiotext_mask = v.radiotext_mask;
    ps_quality = v.ps_quality;
    text_quality = v.text_quality;
    reported_ps = v.reported_ps;
    reported_radiotext = v.reported_radiotext;
    reported_ps_preview = v.reported_ps_preview;
    reported_radiotext_preview = v.reported_radiotext_preview;
  }

module _ {F : Type 0} ⦃float : Float F⦄ where
  pub update_radiotext_chars-IsValid :
      (s : ParserState F) (position : ℕ) (chars : List ℕ) (quality : F)
      → IsValid s
      → IsValid (update_radiotext_chars s position chars quality)
  unfolding update_radiotext_chars
  update_radiotext_chars-IsValid s position chars quality v =
      let w = radiotext_loop-IsValid position chars quality s v in
      with_info (radiotext_loop s position chars quality) _
        (record {
          group = w.info.group;
          pty = w.info.pty;
          ps = w.info.ps;
          radiotext = set_nul-IsText 64 _ 64 w.info.radiotext;
        })
        w

  process_type_0-IsValid :
      (second fourth : Block F) (s : ParserState F)
      → IsValid s
      → IsValid (process_type_0 second fourth s)
  unfolding process_type_0
  process_type_0-IsValid second fourth s v =
      let flagged =
        with_info s (record s.info { ta = has_bit second.data_bits 4 })
          (record {
            group = v.info.group;
            pty = v.info.pty;
            ps = v.info.ps;
            radiotext = v.info.radiotext;
          })
          v in
      if_both IsValid (block_is_usable_for_text second && block_is_usable_for_text fourth) _ _
        (λ _.
          update_ps-IsValid (record s { info = record s.info { ta = has_bit second.data_bits 4 } })
            second.data_bits fourth.data_bits (group_text_quality second fourth) flagged)
        (λ _. flagged)

  switch_ab-IsValid : (ab : Bool) (s : ParserState F) → IsValid s → IsValid (switch_ab ab s)
  unfolding switch_ab
  switch_ab-IsValid ab s v =
      if_both IsValid _ _ _
        (λ _. clear_radiotext-IsValid _ (same_texts {s = s} {ab = ab} {valid = true} v)) (λ _. v)

  process_type_2-IsValid :
      (second third fourth : Block F) (s : ParserState F)
      → IsValid s
      → IsValid (process_type_2 second third fourth s)
  unfolding process_type_2 write_radiotext
  process_type_2-IsValid second third fourth s v =
      if_both IsValid (get_group_version second.data_bits == 65) _ _
        (λ _.
          if_both IsValid
            (block_is_usable_for_text second
              && block_is_usable_for_text third
              && block_is_usable_for_text fourth)
            _ _ (λ _. written _ _ (group_text_quality_2a second third fourth)) (λ _. switched))
        (λ _.
          if_both IsValid (block_is_usable_for_text second && block_is_usable_for_text fourth) _ _
            (λ _. written _ _ (group_text_quality second fourth)) (λ _. switched))
    where
      written :
          (position : ℕ) (chars : List ℕ) (quality : F)
          → IsValid (
              update_radiotext_chars
                (switch_ab (has_bit second.data_bits 4) s)
                position
                chars
                quality)
      written position chars quality =
          update_radiotext_chars-IsValid (switch_ab (has_bit second.data_bits 4) s) position chars
            quality (switch_ab-IsValid (has_bit second.data_bits 4) s v)

      switched : IsValid (switch_ab (has_bit second.data_bits 4) s)
      switched = switch_ab-IsValid (has_bit second.data_bits 4) s v

  pub update_station-IsValid :
      (first second third fourth : Block F) (s : ParserState F)
      → IsValid s
      → IsValid (update_station first second third fourth s)
  unfolding update_station
  update_station-IsValid first second third fourth s v =
      let named = with_info s _ (update_info-IsInfo first second s.info v.info) v in
      let texted =
        if_both IsValid (get_group_type_number second.data_bits == 0) _ _
          (λ _. process_type_0-IsValid second fourth _ named) (λ _. named) in
      if_both IsValid (get_group_type_number second.data_bits == 2) _ _
        (λ _. process_type_2-IsValid second third fourth _ texted) (λ _. texted)

  report-IsValid :
      (n : ℕ) (s : ParserState F) → IsValid s → IsEvent (report n s).0 × IsValid (report n s).1
  unfolding report
  report-IsValid n s v =
      let ps_preview : IsText 8 (build_ps_preview s event_init.ps_preview) =
        unfold build_ps_preview in
        set_nul-IsText 8 _ 8
          (ps_preview_loop-IsText s 4 0 _ (omega arith) v.info.ps.chars (empty-IsText 8)) in
      let radiotext_preview : IsText 64 (build_radiotext_preview s event_init.radiotext_preview) =
        unfold build_radiotext_preview in
        set_nul-IsText 64 _ 64 (
          radiotext_preview_loop-IsText s 64 0 _ (omega arith) v.info.radiotext.chars
            (empty-IsText 64)) in
      (
        record { info = v.info; ps_preview = ps_preview; radiotext_preview = radiotext_preview },
        record {
          info = v.info;
          ps_mask = v.ps_mask;
          radiotext_mask = v.radiotext_mask;
          ps_quality = v.ps_quality;
          text_quality = v.text_quality;
          reported_ps = copied 8 _ _ _ v.reported_ps v.info.ps;
          reported_radiotext = copied 64 _ _ _ v.reported_radiotext v.info.radiotext;
          reported_ps_preview = copied 8 _ _ _ v.reported_ps_preview ps_preview;
          reported_radiotext_preview =
              copied 64 _ _ _ v.reported_radiotext_preview radiotext_preview;
        },
      )

  some_pair : {x y : StationEvent × ParserState F} → some x ≡ some y → x ≡ y
  some_pair e = cc

  -- Where a group is processed from a state that meets the invariant, the new state meets it, and
  -- every text of the event and of its station information is terminated, of its array's length,
  -- and made of printable characters.
  pub process_group-IsValid :
      (s : ParserState F) (blocks : Group F) {event : StationEvent} {t : ParserState F}
      → IsValid s
      → process_group s blocks ≡ some (event, t)
      → IsEvent event × IsValid t
  unfolding process_group
  process_group-IsValid s blocks {event = event} {t = t} v =
      let first = get_or blocks 0 zero_block in
      let second = get_or blocks 1 zero_block in
      let third = get_or blocks 2 zero_block in
      let fourth = get_or blocks 3 zero_block in
      if_both (λ r. r ≡ some (event, t) → IsEvent event × IsValid t)
        (not (first.is_received && second.is_received)) _ _ (λ _ e. absurd cc)
        λ _ e.
          subst (λ (r : StationEvent × ParserState F). IsEvent r.0 × IsValid r.1) (some_pair e)
            (report-IsValid (count_corrected first second third fourth) _
              (update_station-IsValid first second third fourth s v))

  pub parser_init-IsValid : IsValid {F = F} parser_init
  unfolding parser_init
  parser_init-IsValid = record {
    info = record {
      group = empty-IsText 2;
      pty = omega arith;
      ps = empty-IsText 8;
      radiotext = empty-IsText 64;
    };
    ps_mask = omega arith;
    radiotext_mask = omega arith;
    ps_quality = refl;
    text_quality = refl;
    reported_ps = empty-IsText 8;
    reported_radiotext = empty-IsText 64;
    reported_ps_preview = empty-IsText 8;
    reported_radiotext_preview = empty-IsText 64;
  }
