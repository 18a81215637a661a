-- ===== src/Printer/Runs.antt =====
-- src/rds/printer.c on concrete events.
use mpxcast.Prelude.{ℕ, ◌≡◌, refl, true, false, none, some, [], ◌∷◌, replicate}
use mpxcast.Float.Whole.{whole}
use mpxcast.CString.{c_string}
use mpxcast.Parser.{StationEvent, ParserState, station_info_init}
use mpxcast.Parser.Process.{event_init, parser_init, report}
use mpxcast.Printer.{
  Line, shown_ps, shown_radiotext, has_text_update, print_event, nothing, ps_prefix,
}
use mpxcast.Printer.Again.{report_again_is_quiet}

abbrev named : StationEvent
named = record event_init {
  station_changed = true;
  ps_changed = true;
  ps_preview_changed = true;
  info = record station_info_init { has_pi = true; pi = 0x3201; ps = 82 ∷ 49 ∷ replicate 7 0 };
}

abbrev named_line : Line
named_line = record {
  group = 45 ∷ 45 ∷ [];
  pi = 0x3201;
  tp = 0;
  ta = 0;
  pty = 0;
  corrected = 0;
  ps = record { prefix = ps_prefix; text = 82 ∷ 49 ∷ []; suffix = 34 ∷ [] };
  radiotext = nothing;
}

named_is_printed : print_event true named ≡ some named_line
unfolding print_event has_text_update shown_ps shown_radiotext c_string
named_is_printed = refl

not_at_another_level : print_event false named ≡ none
unfolding print_event
not_at_another_level = refl

corrections_are_printed :
    print_event true (record event_init { station_changed = true; corrected_block_count = 2 })
    ≡ some (record named_line { pi = 0; corrected = 2; ps = nothing })
unfolding print_event has_text_update shown_ps shown_radiotext
corrections_are_printed = refl

abbrev start : ParserState ℕ
start = parser_init

report_again_is_quiet_example : print_event true (report 0 (report 3 start).1).0 ≡ none
report_again_is_quiet_example = report_again_is_quiet true 3 start
