-- ===== src/App/Runs.antt =====
-- Concrete runs of src/core/app.c, and the theorems at concrete inputs.
use mpxcast.Prelude.{ℕ, ◌≡◌, refl, true, false, none, List, [], ◌∷◌}
use mpxcast.Http.{stereo}
use mpxcast.Http.Numbers.{strtoul, read_digits, count_spaces}
use mpxcast.Http.Runs.{whole_decimal}
use mpxcast.App.{
  CliOption, port, device, input_file, verbose, volume_gain, ServerConfig, parsed, parse_error,
  debug_level, parse_cli_options, option_loop, handle_option, finish_options,
  parse_device_index_option, parse_float_option, valid_port, default_bind_host, atan2_libm,
}
use mpxcast.App.Accepted.{IsAccepted, parse_cli_options-IsAccepted}
use mpxcast.App.Levels.{level_of, last_named, count_verbose, parse_cli_options_level}

-- "-p 80 -d 1 -v --volume-gain 2"
abbrev loud_options : List CliOption
loud_options = port (56 ∷ 48 ∷ []) ∷ device (49 ∷ []) ∷ verbose ∷ volume_gain (50 ∷ []) ∷ []

abbrev loud_config : ServerConfig ℕ
loud_config = record {
  bind_host = default_bind_host;
  bind_port = 56 ∷ 48 ∷ [];
  input_file = none;
  device_index = 1;
  demod_math = atan2_libm;
  fm_quality_interval_seconds = 0;
  rds_enabled = true;
  volume_gain = 2;
  deemphasis_tau_us = 50;
  mode = stereo;
}

loud_parsed : parse_cli_options whole_decimal 0 loud_options false ≡ parsed loud_config debug_level
unfolding parse_cli_options option_loop handle_option finish_options parse_device_index_option
    parse_float_option valid_port strtoul read_digits count_spaces
loud_parsed = refl

-- A device and a file do not go together.
two_sources :
    parse_cli_options whole_decimal 0 (device (49 ∷ []) ∷ input_file (102 ∷ []) ∷ []) false
    ≡ parse_error
unfolding parse_cli_options option_loop handle_option finish_options parse_device_index_option
    strtoul read_digits count_spaces
two_sources = refl

parse_cli_options-IsAccepted_example : IsAccepted whole_decimal loud_config
parse_cli_options-IsAccepted_example =
    parse_cli_options-IsAccepted whole_decimal 0 loud_options false loud_config debug_level refl
      refl refl loud_parsed

parse_cli_options_level_example :
    debug_level ≡ level_of (last_named loud_options) (count_verbose loud_options)
parse_cli_options_level_example =
    parse_cli_options_level whole_decimal 0 loud_options false loud_config debug_level loud_parsed
