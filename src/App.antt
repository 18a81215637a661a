-- ===== src/App.antt =====
-- src/core/app.c: the command line. What `getopt_long` reads is a parameter: the options in their
-- order, and whether other arguments are left. The rest of `app_run` prints and starts the server.
pub mod Accepted
pub mod Levels
mod Runs
use mpxcast.Prelude.{
  ℕ, ◌+◌, ◌-◌, ◌^◌, Bool, true, false, not, ◌&&◌, ◌||◌, Option, none, some, List, [], ◌∷◌, ltb, leb,
  ◌==◌, if◌then◌else◌, length, u32,
}
use mpxcast.CString.{same_text}
use mpxcast.Http.{Decimal, StreamMode, mono, stereo}
use mpxcast.Http.Numbers.{strtoul}

-- `enum logging_level`, and `enum fm_discriminator_impl`
pub data LogLevel : Type 0 where
  trace_level debug_level info_level warn_level error_level : LogLevel

pub data DemodMath : Type 0 where
  approx atan2_approx atan2_libm : DemodMath

-- An option with its argument.
pub data CliOption : Type 0 where
  host port device input_file stereo_option rds demod_math volume_gain deemphasis_tau log_level :
      List ℕ → CliOption
  fm_quality : Option (List ℕ) → CliOption
  verbose version help unknown : CliOption

-- `struct server_config`
pub record ServerConfig (D : Type 0) : Type 0 where
  pub bind_host : List ℕ
  pub bind_port : List ℕ
  pub input_file : Option (List ℕ)
  pub device_index : ℕ
  pub demod_math : DemodMath
  pub fm_quality_interval_seconds : D
  pub rds_enabled : Bool
  pub volume_gain : D
  pub deemphasis_tau_us : D
  pub mode : StreamMode

-- The local variables of `parse_cli_options` and what it writes.
pub record CliState (D : Type 0) : Type 0 where
  pub config : ServerConfig D
  pub log_level : LogLevel
  pub device_option_seen : Bool
  pub input_file_option_seen : Bool
  pub log_level_explicit : Bool
  pub verbosity : ℕ

-- `enum parse_cli_result`, with what was parsed.
pub data ParseResult (D : Type 0) : Type 0 where
  parsed : ServerConfig D → LogLevel → ParseResult D
  exit_success parse_error : ParseResult D

-- A case of the `switch`: the loop goes on, or the function returns.
pub data Handled (D : Type 0) : Type 0 where
  proceeds : CliState D → Handled D
  returns : ParseResult D → Handled D

-- The name of a level, and of a demodulation.
abbrev pub trace_text : List ℕ
trace_text = 116 ∷ 114 ∷ 97 ∷ 99 ∷ 101 ∷ []

abbrev pub debug_text : List ℕ
debug_text = 100 ∷ 101 ∷ 98 ∷ 117 ∷ 103 ∷ []

abbrev pub info_text : List ℕ
info_text = 105 ∷ 110 ∷ 102 ∷ 111 ∷ []

abbrev pub warn_text : List ℕ
warn_text = 119 ∷ 97 ∷ 114 ∷ 110 ∷ []

abbrev pub error_text : List ℕ
error_text = 101 ∷ 114 ∷ 114 ∷ 111 ∷ 114 ∷ []

abbrev pub approx_text : List ℕ
approx_text = 97 ∷ 112 ∷ 112 ∷ 114 ∷ 111 ∷ 120 ∷ []

abbrev pub atan2_fast_text : List ℕ
atan2_fast_text = 97 ∷ 116 ∷ 97 ∷ 110 ∷ 50 ∷ 95 ∷ 102 ∷ 97 ∷ 115 ∷ 116 ∷ []

abbrev pub atan2_std_text : List ℕ
atan2_std_text = 97 ∷ 116 ∷ 97 ∷ 110 ∷ 50 ∷ 95 ∷ 115 ∷ 116 ∷ 100 ∷ []

-- "0.0.0.0" and "2347"
abbrev pub default_bind_host : List ℕ
default_bind_host = 48 ∷ 46 ∷ 48 ∷ 46 ∷ 48 ∷ 46 ∷ 48 ∷ []

abbrev pub default_bind_port : List ℕ
default_bind_port = 50 ∷ 51 ∷ 52 ∷ 55 ∷ []

unfoldable pub parse_bool_option : List ℕ → Option Bool
parse_bool_option value =
    if same_text value (48 ∷ [])
    then some false
    else if same_text value (49 ∷ [])
    then some true
    else none

unfoldable pub parse_device_index_option : List ℕ → Option ℕ
parse_device_index_option value =
    let index = strtoul value in
    if (index.1 == 0) || not (index.1 == length value) || ltb (2 ^ 32 - 1) index.0
    then none
    else some (u32 index.0)

unfoldable pub parse_demod_math_option : List ℕ → Option DemodMath
parse_demod_math_option value =
    if same_text value approx_text
    then some approx
    else if same_text value atan2_fast_text
    then some atan2_approx
    else if same_text value atan2_std_text
    then some atan2_libm
    else none

unfoldable pub parse_log_level_option : List ℕ → Option LogLevel
parse_log_level_option value =
    if same_text value trace_text
    then some trace_level
    else if same_text value debug_text
    then some debug_level
    else if same_text value info_text
    then some info_level
    else if same_text value warn_text
    then some warn_level
    else if same_text value error_text
    then some error_level
    else none

unfoldable pub valid_port : List ℕ → Bool
valid_port value =
    let port_read = strtoul value in
    not (port_read.1 == 0)
    && (port_read.1 == length value)
    && ltb 0 port_read.0
    && leb port_read.0 65535

abbrev pub demod_math_name : DemodMath → List ℕ
demod_math_name approx = approx_text
demod_math_name atan2_approx = atan2_fast_text
demod_math_name atan2_libm = atan2_std_text

abbrev pub log_level_name : LogLevel → List ℕ
log_level_name trace_level = trace_text
log_level_name debug_level = debug_text
log_level_name info_level = info_text
log_level_name warn_level = warn_text
log_level_name error_level = error_text

-- Goes on with a value, or fails.
abbrev pub or_error {ℓ} : {A : Type ℓ} {D : Type 0} → Option A → (A → CliState D) → Handled D
or_error none next = returns parse_error
or_error (some value) next = proceeds (next value)

abbrev pub proceed_with : {D : Type 0} → Handled D → (CliState D → ParseResult D) → ParseResult D
proceed_with (returns result) loop = result
proceed_with (proceeds state) loop = loop state

-- `lowest` is -FLT_MAX.
module _ {D : Type 0} (decimal : Decimal D) (lowest : D) where
  unfoldable pub parse_float_option : List ℕ → D → Option D
  parse_float_option value min_value =
      let number = decimal.read value in
      if (number.1 == 0)
        || not (number.1 == length value)
        || not (decimal.is_finite number.0)
        || decimal.lt number.0 min_value
      then none
      else some number.0

  abbrev pub nonzero : Option D → Option D
  nonzero none = none
  nonzero (some gain) = if decimal.equal gain (decimal.of_ℕ 0) then none else some gain

  -- An interval that is not positive is 0, which turns the reports off.
  abbrev pub clamp_interval : D → D
  clamp_interval seconds = if decimal.le seconds (decimal.of_ℕ 0) then decimal.of_ℕ 0 else seconds

  abbrev pub quality_interval : Option (List ℕ) → Option D
  quality_interval none = some (decimal.of_ℕ 5)
  quality_interval (some text) = parse_float_option text lowest

  unfoldable pub handle_option : CliState D → CliOption → Handled D
  handle_option state (host text) =
      proceeds (record state { config = record state.config { bind_host = text } })
  handle_option state (port text) =
      if not (valid_port text)
      then returns parse_error
      else proceeds (record state { config = record state.config { bind_port = text } })
  handle_option state (device text) = or_error (parse_device_index_option text) (λ index.
      record state {
        config = record state.config { device_index = index };
        device_option_seen = true;
      })
  handle_option state (input_file []) = returns parse_error
  handle_option state (input_file (c ∷ path)) = proceeds (record state {
    config = record state.config { input_file = some (c ∷ path) };
    input_file_option_seen = true;
  })
  handle_option state (stereo_option text) = or_error (parse_bool_option text) (λ enabled.
      record state { config = record state.config { mode = if enabled then stereo else mono } })
  handle_option state (rds text) =
      or_error (parse_bool_option text)
        (λ enabled. record state { config = record state.config { rds_enabled = enabled } })
  handle_option state (demod_math text) =
      or_error (parse_demod_math_option text)
        (λ impl. record state { config = record state.config { demod_math = impl } })
  handle_option state (volume_gain text) =
      or_error (nonzero (parse_float_option text (decimal.of_ℕ 0)))
        (λ gain. record state { config = record state.config { volume_gain = gain } })
  handle_option state (deemphasis_tau text) =
      or_error (parse_float_option text (decimal.of_ℕ 0))
        (λ tau. record state { config = record state.config { deemphasis_tau_us = tau } })
  handle_option state (log_level text) =
      or_error (parse_log_level_option text)
        (λ level. record state { log_level = level; log_level_explicit = true })
  handle_option state (fm_quality value) = or_error (quality_interval value) (λ seconds.
      record state {
        config = record state.config { fm_quality_interval_seconds = clamp_interval seconds };
      })
  handle_option state verbose = proceeds (record state {
    verbosity = if ltb state.verbosity 2 then state.verbosity + 1 else state.verbosity;
  })
  handle_option state version = returns exit_success
  handle_option state help = returns exit_success
  handle_option state unknown = returns parse_error

  -- Behind the loop.
  unfoldable pub finish_options : Bool → CliState D → ParseResult D
  finish_options arguments_left state =
      if arguments_left
      then parse_error
      else if state.device_option_seen && state.input_file_option_seen
      then parse_error
      else parsed state.config (
          if not state.log_level_explicit
          then if state.verbosity == 0
            then info_level
            else if state.verbosity == 1
            then debug_level
            else trace_level
          else state.log_level)

  unfoldable pub option_loop : Bool → List CliOption → CliState D → ParseResult D
  unfolding handle_option finish_options
  option_loop arguments_left [] state = finish_options arguments_left state
  option_loop arguments_left (option ∷ options) state =
      proceed_with (handle_option state option) (option_loop arguments_left options)

  -- What `app_run` sets before the options are parsed.
  abbrev pub default_config : ServerConfig D
  default_config = record {
    bind_host = default_bind_host;
    bind_port = default_bind_port;
    input_file = none;
    device_index = 0;
    demod_math = atan2_libm;
    fm_quality_interval_seconds = decimal.of_ℕ 0;
    rds_enabled = true;
    volume_gain = decimal.of_ℕ 1;
    deemphasis_tau_us = decimal.of_ℕ 50;
    mode = stereo;
  }

  abbrev pub cli_start : CliState D
  cli_start = record {
    config = default_config;
    log_level = info_level;
    device_option_seen = false;
    input_file_option_seen = false;
    log_level_explicit = false;
    verbosity = 0;
  }

  unfoldable pub parse_cli_options : List CliOption → Bool → ParseResult D
  parse_cli_options options arguments_left = option_loop arguments_left options cli_start
