-- ===== src/Parser.antt =====
-- src/rds/parser.c, parser.h and model.h: RDS groups in, station information and events out.
-- This file has the state and the helpers; the updates are in `Update`, a group in `Process`.
mod Bits
mod Text
pub mod Update
pub mod Complete
pub mod Process
pub mod Valid
pub mod Reports
pub mod Transfer
mod Runs
use mpxcast.Prelude.{
  ℕ, zero, suc, ◌%◌, ◌^◌, ◌<◌, bit_and, Bool, false, not, ◌&&◌, ◌||◌, List, ltb, leb, ◌==◌,
  if◌then◌else◌, length, get_or, set, replicate, u8, ◌>>>◌, ◌<<<◌,
}
use mpxcast.CString.{c_string}
use mpxcast.Float.{Float}
use mpxcast.BlockSync.Stream.{Block}

-- `(mask & (1 << i)) != 0`
unfoldable pub has_bit : ℕ → ℕ → Bool
has_bit mask i = not (bit_and mask (1 <<< i) == 0)

-- `struct rds_station_info`
pub record StationInfo : Type 0 where
  pub has_pi : Bool
  pub pi : ℕ
  pub has_group : Bool
  pub group : List ℕ
  pub tp : Bool
  pub ta : Bool
  pub pty : ℕ
  pub ps : List ℕ
  pub radiotext : List ℕ

-- `struct rds_station_event`
pub record StationEvent : Type 0 where
  pub station_changed : Bool
  pub ps_changed : Bool
  pub radiotext_changed : Bool
  pub ps_preview_changed : Bool
  pub radiotext_preview_changed : Bool
  pub corrected_block_count : ℕ
  pub ps_preview : List ℕ
  pub radiotext_preview : List ℕ
  pub info : StationInfo

-- `struct rds_parser_state`
pub record ParserState (F : Type 0) : Type 0 where
  pub info : StationInfo
  pub radiotext_ab : Bool
  pub radiotext_ab_valid : Bool
  pub ps_seen_mask : ℕ
  pub radiotext_seen_mask : ℕ
  pub ps_segment_quality : List F
  pub radiotext_quality : List F
  pub last_reported_ps : List ℕ
  pub last_reported_radiotext : List ℕ
  pub last_reported_ps_preview : List ℕ
  pub last_reported_radiotext_preview : List ℕ

abbrev pub station_info_init : StationInfo
station_info_init = record {
  has_pi = false;
  pi = 0;
  has_group = false;
  group = replicate 3 0;
  tp = false;
  ta = false;
  pty = 0;
  ps = replicate 9 0;
  radiotext = replicate 65 0;
}

unfoldable pub get_group_type_number : ℕ → ℕ
get_group_type_number block2 = u8 ((block2 >>> 12) % 2 ^ 4)

-- 'B' or 'A'.
unfoldable pub get_group_version : ℕ → ℕ
unfolding has_bit
get_group_version block2 = if has_bit block2 11 then 66 else 65

unfoldable pub get_pty : ℕ → ℕ
get_pty block2 = u8 ((block2 >>> 5) % 2 ^ 5)

-- `isprint` in the C locale: 32 to 126.
unfoldable pub sanitize_char : ℕ → ℕ
sanitize_char value =
    if (value == 0) || (value == 13) || (value == 10)
    then 0
    else if leb 32 value && ltb value 127
    then value
    else 32

-- The loop of `rds_trim_string` at `length`.
unfoldable pub trim_loop : List ℕ → ℕ → List ℕ
trim_loop text zero = text
trim_loop text (suc n) =
    let rest = trim_loop (set text n 0) n in if get_or text n 0 == 32 then rest else text

unfoldable pub trim_string : List ℕ → List ℕ
unfolding c_string trim_loop
trim_string text = trim_loop text (length (c_string text))

module _ {F : Type 0} ⦃float : Float F⦄ where
  unfoldable pub block_quality : Block F → F
  block_quality block =
      let quality =
        float.divide block.confidence
          (float.add (float.literal 1 1) (float.of_ℕ block.corrected_bit_count)) in
      if not block.is_received
      then float.literal 0 1
      else float.add quality (if block.had_errors then float.literal 1 4 else float.literal 2 1)

  unfoldable pub group_text_quality : Block F → Block F → F
  group_text_quality first second = float.add (block_quality first) (block_quality second)

  unfoldable pub group_text_quality_2a : Block F → Block F → Block F → F
  group_text_quality_2a block2 block3 block4 =
      float.add (float.add (block_quality block2) (block_quality block3)) (block_quality block4)

unfoldable pub block_is_usable_for_text : {F : Type 0} → Block F → Bool
block_is_usable_for_text block =
    block.is_received && (not block.had_errors || ltb 0 block.corrected_bit_count)
