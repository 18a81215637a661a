-- ===== src/Printer.antt =====
-- src/rds/printer.c: the line of trace that a station event gives.
pub mod Again
mod Runs
use mpxcast.Prelude.{
  ℕ, Bool, not, ◌&&◌, ◌||◌, Option, none, some, List, [], ◌∷◌, ltb, if◌then◌else◌, of_bool,
}
use mpxcast.CString.{c_string}
use mpxcast.Parser.{StationEvent}

-- What is printed of one text: what stands before it, the text, and what stands behind it.
pub record Shown : Type 0 where
  pub prefix : List ℕ
  pub text : List ℕ
  pub suffix : List ℕ

-- The arguments of `TRACE`, in their order.
pub record Line : Type 0 where
  pub group : List ℕ
  pub pi : ℕ
  pub tp : ℕ
  pub ta : ℕ
  pub pty : ℕ
  pub corrected : ℕ
  pub ps : Shown
  pub radiotext : Shown

abbrev pub nothing : Shown
nothing = record { prefix = []; text = []; suffix = [] }

-- A text in quotes, without the bytes from its NUL on.
abbrev pub quoted : List ℕ → List ℕ → Shown
quoted prefix text = record { prefix = prefix; text = c_string text; suffix = 34 ∷ [] }

-- ` ps="`
abbrev pub ps_prefix : List ℕ
ps_prefix = 32 ∷ 112 ∷ 115 ∷ 61 ∷ 34 ∷ []

-- ` ps-partial="`
abbrev pub ps_partial_prefix : List ℕ
ps_partial_prefix = 32 ∷ 112 ∷ 115 ∷ 45 ∷ 112 ∷ 97 ∷ 114 ∷ 116 ∷ 105 ∷ 97 ∷ 108 ∷ 61 ∷ 34 ∷ []

-- ` radiotext="`
abbrev pub radiotext_prefix : List ℕ
radiotext_prefix = 32 ∷ 114 ∷ 97 ∷ 100 ∷ 105 ∷ 111 ∷ 116 ∷ 101 ∷ 120 ∷ 116 ∷ 61 ∷ 34 ∷ []

-- ` radiotext-partial="`
abbrev pub radiotext_partial_prefix : List ℕ
radiotext_partial_prefix =
    32 ∷ 114 ∷ 97 ∷ 100 ∷ 105 ∷ 111 ∷ 116 ∷ 101 ∷ 120 ∷ 116 ∷ 45 ∷ 112 ∷ 97 ∷ 114 ∷ 116 ∷ 105 ∷ 97
    ∷ 108 ∷ 61 ∷ 34 ∷ []

unfoldable pub shown_ps : StationEvent → Shown
shown_ps event =
    if event.ps_changed
    then quoted ps_prefix event.info.ps
    else if event.ps_preview_changed
    then quoted ps_partial_prefix event.ps_preview
    else nothing

unfoldable pub shown_radiotext : StationEvent → Shown
shown_radiotext event =
    if event.radiotext_changed
    then quoted radiotext_prefix event.info.radiotext
    else if event.radiotext_preview_changed
    then quoted radiotext_partial_prefix event.radiotext_preview
    else nothing

unfoldable pub has_text_update : StationEvent → Bool
has_text_update event =
    event.ps_changed || event.ps_preview_changed || event.radiotext_changed
    || event.radiotext_preview_changed

-- `rds_printer_print_event`, where `is_trace` is `logging_get_level() == LOG_TRACE`: the line that
-- is logged, if one is.
unfoldable pub print_event : Bool → StationEvent → Option Line
print_event is_trace event =
    if not is_trace || not event.station_changed
    then none
    else if not (has_text_update event) && not (ltb 0 event.corrected_block_count)
    then none
    else some (record {
      group = if event.info.has_group then c_string event.info.group else 45 ∷ 45 ∷ [];
      pi = if event.info.has_pi then event.info.pi else 0;
      tp = of_bool event.info.tp;
      ta = of_bool event.info.ta;
      pty = event.info.pty;
      corrected = event.corrected_block_count;
      ps = shown_ps event;
      radiotext = shown_radiotext event;
    })
