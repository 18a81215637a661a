-- ===== src/Parser/Complete.antt =====
-- src/rds/parser.c: `rds_parser_radiotext_is_complete`, and what it decides.
pub mod Meaning
use mpxcast.Prelude.{
  ℕ, zero, suc, ◌+◌, ◌-◌, ◌^◌, Bool, true, false, not, ◌&&◌, ◌||◌, ◌==◌, if◌then◌else◌, get_or,
}
use mpxcast.Parser.{ParserState}
use mpxcast.Parser.Update.{radiotext_seen}

-- What the first loop leaves: `end_index`, `found_end` and `has_non_space`.
pub record TextScan : Type 0 where
  pub end_index : ℕ
  pub found_end : Bool
  pub has_non_space : Bool

module _ {F : Type 0} where
  abbrev pub text_char : ParserState F → ℕ → ℕ
  text_char state i = get_or state.info.radiotext i 0

  -- The first loop at `i`, with `n` rounds left.
  unfoldable pub scan_text : ParserState F → ℕ → ℕ → Bool → TextScan
  scan_text state zero i has_non_space = record {
    end_index = 64;
    found_end = false;
    has_non_space = has_non_space;
  }
  scan_text state (suc n) i has_non_space =
      let seen = radiotext_seen state i in
      let value = text_char state i in
      let rest = scan_text state n (i + 1) (has_non_space || (seen && not (value == 32))) in
      if seen && (value == 0)
      then record { end_index = i; found_end = true; has_non_space = has_non_space }
      else rest

  -- The second loop.
  unfoldable pub any_non_space : ParserState F → ℕ → ℕ → Bool
  any_non_space state zero i = false
  any_non_space state (suc n) i =
      let rest = any_non_space state n (i + 1) in
      if not (text_char state i == 32) then true else rest

  -- The third loop.
  unfoldable pub all_seen : ParserState F → ℕ → ℕ → Bool
  all_seen state zero i = true
  all_seen state (suc n) i =
      let rest = all_seen state n (i + 1) in if radiotext_seen state i then rest else false

  unfoldable pub radiotext_is_complete : ParserState F → Bool
  radiotext_is_complete state =
      let scan = scan_text state 64 0 false in
      if text_char state 0 == 0
      then false
      else if not scan.found_end && not (state.radiotext_seen_mask == 2 ^ 64 - 1)
      then false
      else if not (all_seen state scan.end_index 0)
      then false
      else scan.has_non_space || (not scan.found_end && any_non_space state 64 0)
