-- ===== src/App/Levels.antt =====
-- src/core/app.c: the level of logging that the options give.
use mpxcast.Prelude.{
  ℕ, zero, suc, ◌+◌, ◌≤◌, ◌≡◌, refl, sym, ap, ◌∙◌, Bool, true, false, not, ◌&&◌, Option, none, some,
  List, [], ◌∷◌, arith, ltb, ◌==◌, if◌then◌else◌, if_both,
}
use mpxcast.Http.{Decimal}
use mpxcast.App.{
  LogLevel, trace_level, debug_level, info_level, CliOption, host, port, device, input_file,
  stereo_option, rds, demod_math, volume_gain, deemphasis_tau, log_level, fm_quality, verbose,
  version, help, unknown, ServerConfig, CliState, ParseResult, parsed, Handled, parse_bool_option,
  parse_device_index_option, parse_demod_math_option, parse_log_level_option, valid_port,
  parse_float_option, nonzero, quality_interval, handle_option, finish_options, proceed_with,
  option_loop, cli_start, parse_cli_options,
}
use mpxcast.App.Accepted.{or_error_goes_on}

-- The level of the last option that names one.
abbrev or_else : Option LogLevel → Option LogLevel → Option LogLevel
or_else (some level) other = some level
or_else none other = other

abbrev level_named : CliOption → Option LogLevel
level_named (log_level text) = parse_log_level_option text
level_named other = none

unfoldable pub last_named : List CliOption → Option LogLevel
last_named [] = none
last_named (option ∷ options) = or_else (last_named options) (level_named option)

-- How often the options ask for more messages.
abbrev asks_more : CliOption → ℕ
asks_more verbose = 1
asks_more other = 0

unfoldable pub count_verbose : List CliOption → ℕ
count_verbose [] = 0
count_verbose (option ∷ options) = asks_more option + count_verbose options

abbrev level_counted : ℕ → LogLevel
level_counted zero = info_level
level_counted (suc zero) = debug_level
level_counted (suc (suc n)) = trace_level

abbrev pub level_of : Option LogLevel → ℕ → LogLevel
level_of (some level) count = level
level_of none count = level_counted count

counted_many : (n : ℕ) → 2 ≤ n → level_counted n ≡ trace_level
counted_many zero h = absurd (omega (arith, h))
counted_many (suc zero) h = absurd (omega (arith, h))
counted_many (suc (suc n)) h = refl

counted_tests :
    (n : ℕ)
    → (if n == 0 then info_level else if n == 1 then debug_level else trace_level)
      ≡ level_counted (n + 0)
counted_tests zero = refl
counted_tests (suc zero) = refl
counted_tests (suc (suc n)) =
    if_both (λ (l : LogLevel). l ≡ level_counted (suc (suc n) + 0)) (suc (suc n) == 0) _ _
      (λ e. absurd (ground (arith, e)))
      λ _.
        if_both (λ (l : LogLevel). l ≡ level_counted (suc (suc n) + 0)) (suc (suc n) == 1) _ _
          (λ e. absurd (ground (arith, e)))
          (λ _. sym (counted_many (suc (suc n) + 0) (omega arith)))

-- A counter that stops at 2 counts as well.
counted_more :
    (v n : ℕ) → level_counted ((if ltb v 2 then v + 1 else v) + n) ≡ level_counted (v + (1 + n))
counted_more v n =
    if_both (λ (w : ℕ). level_counted (w + n) ≡ level_counted (v + (1 + n))) (ltb v 2) _ _
      (λ _. ap level_counted (omega arith))
      λ many.
        counted_many (v + n) (ground (arith, many))
        ∙ sym (counted_many (v + (1 + n)) (ground (arith, many)))

-- The level that comes out of the three variables, with what the later options ask for.
abbrev level_after : Option LogLevel → Bool → LogLevel → ℕ → ℕ → LogLevel
level_after (some level) explicit kept verbosity count = level
level_after none explicit kept verbosity count =
    if not explicit then level_counted (verbosity + count) else kept

plain_lem :
    (last : Option LogLevel) (explicit : Bool) (kept : LogLevel) (verbosity count : ℕ)
    → level_after last explicit kept verbosity count
      ≡ level_after (or_else last none) explicit kept verbosity (0 + count)
plain_lem (some level) explicit kept verbosity count = refl
plain_lem none explicit kept verbosity count =
    ap (level_after none explicit kept verbosity) (omega arith)

named_lem :
    (last named : Option LogLevel) (given : LogLevel) (explicit : Bool) (kept : LogLevel)
    (verbosity count : ℕ)
    → named ≡ some given
    → level_after last true given verbosity count
      ≡ level_after (or_else last named) explicit kept verbosity (0 + count)
named_lem (some level) named given explicit kept verbosity count e = refl
named_lem none named given explicit kept verbosity count e =
    sym (ap (λ (o : Option LogLevel). level_after o explicit kept verbosity (0 + count)) e)

more_lem :
    (last : Option LogLevel) (explicit : Bool) (kept : LogLevel) (verbosity count : ℕ)
    → level_after last explicit kept (if ltb verbosity 2 then verbosity + 1 else verbosity) count
      ≡ level_after (or_else last none) explicit kept verbosity (1 + count)
more_lem (some level) explicit kept verbosity count = refl
more_lem none explicit kept verbosity count =
    ap (λ level. if not explicit then level else kept) (counted_more verbosity count)

module _ {D : Type 0} (decimal : Decimal D) (lowest : D) where
  finish_options_level :
      (arguments_left : Bool) (state : CliState D) (config : ServerConfig D) (level : LogLevel)
      → finish_options decimal lowest arguments_left state ≡ parsed config level
      → level ≡ level_after none state.log_level_explicit state.log_level state.verbosity 0
  unfolding finish_options
  finish_options_level left state config level e =
      if_both
        (λ (r : ParseResult D).
          r ≡ parsed config level
          → level ≡ level_after none state.log_level_explicit state.log_level state.verbosity 0)
        left _ _ (λ _ f. absurd cc)
        (λ _.
          if_both
            (λ (r : ParseResult D).
              r ≡ parsed config level
              → level ≡ level_after none state.log_level_explicit state.log_level state.verbosity 0)
            (state.device_option_seen && state.input_file_option_seen) _ _ (λ _ f. absurd cc)
            λ _ f.
              sym (level_out f)
              ∙ ap (λ counted. if not state.log_level_explicit then counted else state.log_level)
                  (counted_tests state.verbosity))
        e
    where
      level_out : {c c2 : ServerConfig D} {l m : LogLevel} → parsed c l ≡ parsed c2 m → l ≡ m
      level_out f = cc

  option_loop_level :
      (arguments_left : Bool) (options : List CliOption) (state : CliState D)
      (config : ServerConfig D) (level : LogLevel)
      → option_loop decimal lowest arguments_left options state ≡ parsed config level
      → level
        ≡ level_after
            (last_named options)
            state.log_level_explicit
            state.log_level
            state.verbosity
            (count_verbose options)
  unfolding option_loop handle_option last_named count_verbose
  option_loop_level left [] state config level e = finish_options_level left state config level e
  option_loop_level left (host text ∷ options) state config level e =
      option_loop_level left options _ config level e
      ∙ plain_lem (last_named options) state.log_level_explicit state.log_level state.verbosity
          (count_verbose options)
  option_loop_level left (port text ∷ options) state config level e =
      if_both
        (λ (r : Handled D).
          proceed_with r (option_loop decimal lowest left options) ≡ parsed config level
          → level
            ≡ level_after (or_else (last_named options) none) state.log_level_explicit
                state.log_level state.verbosity (0 + count_verbose options))
        (not (valid_port text)) _ _ (λ _ f. absurd cc)
        (λ _ f.
          option_loop_level left options _ config level f
          ∙ plain_lem (last_named options) state.log_level_explicit state.log_level state.verbosity
              (count_verbose options))
        e
  option_loop_level left (device text ∷ options) state config level e =
      let given =
        or_error_goes_on (parse_device_index_option text) _
          (option_loop decimal lowest left options) config level e in
      option_loop_level left options _ config level given.2
      ∙ plain_lem (last_named options) state.log_level_explicit state.log_level state.verbosity
          (count_verbose options)
  option_loop_level left (input_file [] ∷ options) state config level e = absurd cc
  option_loop_level left (input_file (c ∷ path) ∷ options) state config level e =
      option_loop_level left options _ config level e
      ∙ plain_lem (last_named options) state.log_level_explicit state.log_level state.verbosity
          (count_verbose options)
  option_loop_level left (stereo_option text ∷ options) state config level e =
      let given =
        or_error_goes_on (parse_bool_option text) _ (option_loop decimal lowest left options) config
          level e in
      option_loop_level left options _ config level given.2
      ∙ plain_lem (last_named options) state.log_level_explicit state.log_level state.verbosity
          (count_verbose options)
  option_loop_level left (rds text ∷ options) state config level e =
      let given =
        or_error_goes_on (parse_bool_option text) _ (option_loop decimal lowest left options) config
          level e in
      option_loop_level left options _ config level given.2
      ∙ plain_lem (last_named options) state.log_level_explicit state.log_level state.verbosity
          (count_verbose options)
  option_loop_level left (demod_math text ∷ options) state config level e =
      let given =
        or_error_goes_on (parse_demod_math_option text) _ (option_loop decimal lowest left options)
          config level e in
      option_loop_level left options _ config level given.2
      ∙ plain_lem (last_named options) state.log_level_explicit state.log_level state.verbosity
          (count_verbose options)
  option_loop_level left (volume_gain text ∷ options) state config level e =
      let given =
        or_error_goes_on
          (nonzero decimal lowest (parse_float_option decimal lowest text (decimal.of_ℕ 0))) _
          (option_loop decimal lowest left options) config level e in
      option_loop_level left options _ config level given.2
      ∙ plain_lem (last_named options) state.log_level_explicit state.log_level state.verbosity
          (count_verbose options)
  option_loop_level left (deemphasis_tau text ∷ options) state config level e =
      let given =
        or_error_goes_on (parse_float_option decimal lowest text (decimal.of_ℕ 0)) _
          (option_loop decimal lowest left options) config level e in
      option_loop_level left options _ config level given.2
      ∙ plain_lem (last_named options) state.log_level_explicit state.log_level state.verbosity
          (count_verbose options)
  option_loop_level left (log_level text ∷ options) state config level e =
      let given =
        or_error_goes_on (parse_log_level_option text) _ (option_loop decimal lowest left options)
          config level e in
      option_loop_level left options _ config level given.2
      ∙ named_lem (last_named options) (parse_log_level_option text) given.0
          state.log_level_explicit state.log_level state.verbosity (count_verbose options) given.1
  option_loop_level left (fm_quality text ∷ options) state config level e =
      let given =
        or_error_goes_on (quality_interval decimal lowest text) _
          (option_loop decimal lowest left options) config level e in
      option_loop_level left options _ config level given.2
      ∙ plain_lem (last_named options) state.log_level_explicit state.log_level state.verbosity
          (count_verbose options)
  option_loop_level left (verbose ∷ options) state config level e =
      option_loop_level left options _ config level e
      ∙ more_lem (last_named options) state.log_level_explicit state.log_level state.verbosity
          (count_verbose options)
  option_loop_level left (version ∷ options) state config level e = absurd cc
  option_loop_level left (help ∷ options) state config level e = absurd cc
  option_loop_level left (unknown ∷ options) state config level e = absurd cc

  -- Where options are accepted, the level is the one that the last option with a level names, and
  -- without such an option info, debug or trace for none, one or more of the options that ask for
  -- more messages, in whatever order the options stand.
  pub parse_cli_options_level :
      (options : List CliOption) (arguments_left : Bool) (config : ServerConfig D)
      (level : LogLevel)
      → parse_cli_options decimal lowest options arguments_left ≡ parsed config level
      → level ≡ level_of (last_named options) (count_verbose options)
  unfolding parse_cli_options
  parse_cli_options_level options left config level e =
      option_loop_level left options (cli_start decimal lowest) config level e
      ∙ at_start (last_named options) (count_verbose options)
    where
      at_start :
          (last : Option LogLevel) (count : ℕ)
          → level_after last false info_level 0 count ≡ level_of last count
      at_start (some level) count = refl
      at_start none count = ap level_counted (omega arith)
