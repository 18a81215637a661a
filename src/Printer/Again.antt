-- ===== src/Printer/Again.antt =====
-- src/rds/printer.c after src/rds/parser.c: what was reported is not printed again.
use mpxcast.Prelude.{
  ℕ, zero, suc, ◌+◌, ◌≡◌, refl, sym, ap, ◌∙◌, subst, ◌≢◌, inl, inr, Bool, true, false, not, ◌&&◌,
  ◌||◌, none, List, arith, ◌==◌, if◌then◌else◌, Bool-cases, set, if_both, ltb,
}
use mpxcast.Float.{Float}
use mpxcast.CString.{c_string}
use mpxcast.Parser.{StationEvent, ParserState}
use mpxcast.Parser.Update.{
  radiotext_seen, ps_seen, ps_preview_loop, build_ps_preview, radiotext_preview_loop,
  build_radiotext_preview,
}
use mpxcast.Parser.Complete.{
  TextScan, text_char, scan_text, any_non_space, all_seen, radiotext_is_complete,
}
use mpxcast.Parser.Process.{report}
use mpxcast.Parser.Reports.{IsTold, report_tells}
use mpxcast.Printer.{print_event, has_text_update}

-- A text that was told and did not change is not told again.
told_again :
    {worth worth' : Type 0} {changed changed' : Bool} {text text' before after after' : List ℕ}
    → (worth' → worth)
    → text' ≡ text
    → IsTold worth changed text before after
    → IsTold worth' changed' text' after after'
    → changed' ≡ false
told_again {changed = changed} {changed' = changed'} {text = text} {after = after} back same first
      second =
    elim (Bool-cases changed') [
      | inr quiet_now ↦ quiet_now
      | inl again_now ↦
          let found = second.told.0 again_now in
          let differs = subst (λ t. c_string after ≢ c_string t) same found.1 in
          elim (Bool-cases changed) [
            | inl told ↦ absurd (differs (first.remembered told))
            | inr quiet ↦
                let again = first.told.1 (
                  back found.0,
                  subst (λ t. c_string t ≢ c_string text) (first.kept quiet) differs,
                ) in
                absurd (ground (arith, again, quiet))
          ]
    ]

-- Without a change and without a corrected block, nothing is printed.
silent :
    (is_trace : Bool) (event : StationEvent)
    → event.ps_changed ≡ false
    → event.radiotext_changed ≡ false
    → event.ps_preview_changed ≡ false
    → event.radiotext_preview_changed ≡ false
    → event.corrected_block_count ≡ 0
    → print_event is_trace event ≡ none
unfolding print_event has_text_update
silent is_trace event no_ps no_radiotext no_ps_preview no_radiotext_preview none_corrected =
    if_both (λ r. r ≡ none) (not is_trace || not event.station_changed) _ _ (λ _. refl)
      λ _.
        if_both (λ r. r ≡ none)
          (not (has_text_update event) && not (ltb 0 event.corrected_block_count)) _ _ (λ _. refl)
          (λ heard. absurd (
            ground (
              arith, heard, no_ps, no_radiotext, no_ps_preview, no_radiotext_preview,
              none_corrected,
            )))

module _ {F : Type 0} (s : ParserState F) (ps radiotext ps_preview radiotext_preview : List ℕ) where
  -- The state with other texts that were reported last.
  abbrev remembering : ParserState F
  remembering = record s {
    last_reported_ps = ps;
    last_reported_radiotext = radiotext;
    last_reported_ps_preview = ps_preview;
    last_reported_radiotext_preview = radiotext_preview;
  }

  scan_text_same : (n i : ℕ) (b : Bool) → scan_text remembering n i b ≡ scan_text s n i b
  unfolding scan_text radiotext_seen
  scan_text_same zero i b = refl
  scan_text_same (suc n) i b =
      let seen = radiotext_seen s i in
      let value = text_char s i in
      ap
        (λ (rest : TextScan).
          if seen && (value == 0)
          then record { end_index = i; found_end = true; has_non_space = b }
          else rest)
        (scan_text_same n (i + 1) (b || (seen && not (value == 32))))

  any_non_space_same : (n i : ℕ) → any_non_space remembering n i ≡ any_non_space s n i
  unfolding any_non_space
  any_non_space_same zero i = refl
  any_non_space_same (suc n) i =
      ap (λ rest. if not (text_char s i == 32) then true else rest) (any_non_space_same n (i + 1))

  all_seen_same : (n i : ℕ) → all_seen remembering n i ≡ all_seen s n i
  unfolding all_seen radiotext_seen
  all_seen_same zero i = refl
  all_seen_same (suc n) i =
      ap (λ rest. if radiotext_seen s i then rest else false) (all_seen_same n (i + 1))

  is_complete_same : radiotext_is_complete remembering ≡ radiotext_is_complete s
  unfolding radiotext_is_complete
  is_complete_same =
      rw
        (
          scan_text_same 64 0 false,
          all_seen_same (scan_text s 64 0 false).end_index 0,
          any_non_space_same 64 0,
        )
        refl

  ps_preview_same :
      (n i : ℕ) (preview : List ℕ)
      → ps_preview_loop remembering preview n i ≡ ps_preview_loop s preview n i
  unfolding ps_preview_loop ps_seen
  ps_preview_same zero i preview = refl
  ps_preview_same (suc n) i preview = ps_preview_same n (i + 1) _

  radiotext_preview_same :
      (n i : ℕ) (preview : List ℕ)
      → radiotext_preview_loop remembering preview n i ≡ radiotext_preview_loop s preview n i
  unfolding radiotext_preview_loop radiotext_seen
  radiotext_preview_same zero i preview = refl
  radiotext_preview_same (suc n) i preview = radiotext_preview_same n (i + 1) _

module _ {F : Type 0} ⦃float : Float F⦄ where
  -- Right after a report, with whatever number of corrected blocks, a report that comes with
  -- nothing new in the state and with no corrected block is not printed, at any level.
  pub report_again_is_quiet :
      (is_trace : Bool) (n : ℕ) (s : ParserState F)
      → print_event is_trace (report 0 (report n s).1).0 ≡ none
  unfolding report build_ps_preview build_radiotext_preview
  report_again_is_quiet is_trace n s =
      let first = report_tells n s in
      let second = report_tells 0 t in
      silent is_trace (report 0 t).0 (told_again (λ w. w) refl first.0 second.0)
        (told_again (λ w. (sym complete ∙ w.0, w.1)) refl first.1 second.1)
        (told_again (λ w. w) (ap (λ text. set text 8 0) (ps_preview_same s _ _ _ _ 4 0 _)) first.2
          second.2)
        (told_again (λ w. w) (ap (λ text. set text 64 0) (radiotext_preview_same s _ _ _ _ 64 0 _))
          first.3 second.3)
        refl
    where
      t : ParserState F
      t = (report n s).1

      complete : radiotext_is_complete t ≡ radiotext_is_complete s
      complete = is_complete_same s _ _ _ _
