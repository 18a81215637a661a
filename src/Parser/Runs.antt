-- ===== src/Parser/Runs.antt =====
-- Concrete runs of src/rds/parser.c, and the theorems at concrete inputs.
use mpxcast.Prelude.{
  ℕ, zero, suc, ◌^◌, ◌≤◌, ◌<◌, ◌≡◌, refl, ◌≢◌, ◌↔◌, ◌⊎◌, inl, inr, true, false, some, List, [], ◌∷◌,
  arith, get_or, replicate,
}
use mpxcast.Float.Whole.{whole}
use mpxcast.BlockSync.Stream.{Block, Group}
use mpxcast.CString.{c_string}
use mpxcast.Parser.{StationEvent, ParserState, trim_string, trim_loop, sanitize_char, has_bit}
use mpxcast.Parser.Update.{update_ps, write_ps, ps_seen}
use mpxcast.Parser.Complete.{text_char, radiotext_is_complete}
use mpxcast.Parser.Complete.Meaning.{IsComplete, radiotext_is_complete_iff}
use mpxcast.Parser.Process.{parser_init, report, update_station, process_group, count_corrected}
use mpxcast.Parser.Valid.{IsValid, IsEvent}
use mpxcast.Parser.Valid.Whole.{parser_init-IsValid, process_group-IsValid}
use mpxcast.Parser.Reports.{IsTold, report_tells}
use mpxcast.Parser.Transfer.{IsMessage, Sent, InRange, receive, message_received}

abbrev start : ParserState ℕ
start = parser_init

-- The name "RADIO 1 ": the space that ends "O " is cut off before "1 " comes, and the text stops
-- there until "O " is received again.
abbrev name_segments : ParserState ℕ
name_segments =
    update_ps (update_ps (update_ps (update_ps start 0 0x5241 2) 1 0x4449 2) 2 0x4f20 2) 3 0x3120 2

name_is_cut : c_string name_segments.info.ps ≡ 82 ∷ 65 ∷ 68 ∷ 73 ∷ 79 ∷ []
unfolding parser_init update_ps write_ps ps_seen has_bit sanitize_char trim_string trim_loop
    c_string
name_is_cut = refl

abbrev block : ℕ → Block ℕ
block n = record {
  data_bits = n;
  is_received = true;
  had_errors = false;
  soft_reliable = false;
  corrected_bit_count = 0;
  confidence = 1;
}

-- A group 0A with the first two characters of a name.
abbrev group_0a : Group ℕ
group_0a = block 0x3201 ∷ block 0x0500 ∷ block 0 ∷ block 0x5241 ∷ []

abbrev after_0a : StationEvent × ParserState ℕ
after_0a =
    report (count_corrected (block 0x3201) (block 0x0500) (block 0) (block 0x5241))
      (update_station (block 0x3201) (block 0x0500) (block 0) (block 0x5241) start)

group_0a_runs : process_group start group_0a ≡ some after_0a
unfolding process_group
group_0a_runs = refl

process_group-IsValid_example : IsEvent after_0a.0 × IsValid after_0a.1
process_group-IsValid_example =
    process_group-IsValid start group_0a parser_init-IsValid group_0a_runs

start_mask : start.radiotext_seen_mask < 2 ^ 64
unfolding parser_init
start_mask = omega arith

radiotext_is_complete_iff_example : (radiotext_is_complete start ≡ true) ↔ IsComplete start
radiotext_is_complete_iff_example = radiotext_is_complete_iff start start_mask

-- A message of 64 letters, its segments sent from the last to the first.
abbrev message : List ℕ
message = replicate 64 65

get_or-replicate : (n j : ℕ) → j < n → get_or {A = ℕ} (replicate n 65) j 0 ≡ 65
get_or-replicate zero j h = absurd (omega arith)
get_or-replicate (suc n) zero h = refl
get_or-replicate (suc n) (suc j) h = get_or-replicate n j (omega arith)

message-IsMessage : IsMessage message
message-IsMessage = record {
  printable =
      λ j h. (omega (arith, get_or-replicate 64 j h), omega (arith, get_or-replicate 64 j h));
  shown = 0;
  shown_lt = omega arith;
  shown_char = λ e. absurd (omega (arith, e));
}

abbrev backwards : ℕ → List (ℕ × ℕ)
backwards zero = []
backwards (suc k) = (k, 1) ∷ backwards k

backwards-Sent : (n k : ℕ) → k < n → Sent k (backwards n)
backwards-Sent zero k h = absurd (omega arith)
backwards-Sent (suc n) k h = elim (last_or_before n k h) [
  | inl e ↦ inl e
  | inr below ↦ inr (backwards-Sent n k below)
]
  where
    last_or_before : (m j : ℕ) → j < suc m → (j ≡ m) ⊎ (j < m)
    last_or_before m j below = omega arith

backwards-InRange : (n : ℕ) → n ≤ 16 → InRange (backwards n)
backwards-InRange zero h = tt
backwards-InRange (suc n) h = (omega arith, backwards-InRange n (omega arith))

start_unseen : start.radiotext_seen_mask ≡ 0
unfolding parser_init
start_unseen = refl

message_received_example :
    let t = receive message (backwards 16) start in
    ((j : ℕ) → j < 64 → text_char t j ≡ get_or message j 0) × (radiotext_is_complete t ≡ true)
message_received_example =
    message_received message (backwards 16) start parser_init-IsValid start_unseen message-IsMessage
      (backwards-InRange 16 (omega arith)) (backwards-Sent 16)

report_tells_example :
    let s = start in
    let e = (report 0 s).0 in
    let t = (report 0 s).1 in
    IsTold (get_or s.info.ps 0 0 ≢ 0) e.ps_changed s.info.ps s.last_reported_ps t.last_reported_ps
    × IsTold
        ((radiotext_is_complete s ≡ true) × (get_or s.info.radiotext 0 0 ≢ 0))
        e.radiotext_changed
        s.info.radiotext
        s.last_reported_radiotext
        t.last_reported_radiotext
    × IsTold Unit e.ps_preview_changed e.ps_preview s.last_reported_ps_preview
        t.last_reported_ps_preview
    × IsTold Unit e.radiotext_preview_changed e.radiotext_preview s.last_reported_radiotext_preview
        t.last_reported_radiotext_preview
report_tells_example = report_tells 0 start
