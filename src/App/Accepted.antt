-- ===== src/App/Accepted.antt =====
-- src/core/app.c: what holds of every configuration that the options give.
use mpxcast.Prelude.{
  ℕ, ◌≡◌, ◌≢◌, ◌⊎◌, inl, inr, refl, subst, Bool, true, false, not, ◌&&◌, ◌||◌, Option, none, some,
  List, [], ◌∷◌, arith, ◌==◌, length, if_both, Bool-cases,
}
use mpxcast.Http.{Decimal}
use mpxcast.Http.Numbers.{strtoul, read_digits, count_spaces}
use mpxcast.App.{
  LogLevel, CliOption, host, port, device, input_file, stereo_option, rds, demod_math, volume_gain,
  deemphasis_tau, log_level, fm_quality, verbose, version, help, unknown, ServerConfig, CliState,
  ParseResult, parsed, Handled, parse_bool_option, parse_device_index_option,
  parse_demod_math_option, parse_log_level_option, valid_port, or_error, parse_float_option,
  nonzero, quality_interval, handle_option, finish_options, proceed_with, option_loop, cli_start,
  parse_cli_options,
}

-- The port is one, the gain is above 0, the time constant is not below 0, the file has a name, and
-- a device that is not the first one is not given beside a file.
pub record IsAccepted {D : Type 0} (decimal : Decimal D) (config : ServerConfig D) : Type 0 where
  pub has_port : valid_port config.bind_port ≡ true
  pub gain_not_below : decimal.lt config.volume_gain (decimal.of_ℕ 0) ≡ false
  pub gain_not_zero : decimal.equal config.volume_gain (decimal.of_ℕ 0) ≡ false
  pub tau_not_below : decimal.lt config.deemphasis_tau_us (decimal.of_ℕ 0) ≡ false
  pub named : config.input_file ≢ some []
  pub one_source : (config.input_file ≡ none) ⊎ (config.device_index ≡ 0)

-- The same between two options, with what the flags of the two sources say, of the values that it is
-- about.
record IsSound {D : Type 0} (decimal : Decimal D) (bind_port : List ℕ) (gain tau : D)
    (file : Option (List ℕ)) (index : ℕ) (device_seen file_seen : Bool) : Type 0 where
  has_port : valid_port bind_port ≡ true
  gain_not_below : decimal.lt gain (decimal.of_ℕ 0) ≡ false
  gain_not_zero : decimal.equal gain (decimal.of_ℕ 0) ≡ false
  tau_not_below : decimal.lt tau (decimal.of_ℕ 0) ≡ false
  named : file ≢ some []
  no_device : device_seen ≡ false → index ≡ 0
  no_file : file_seen ≡ false → file ≡ none

abbrev StateIsSound : {D : Type 0} → Decimal D → CliState D → Type 0
StateIsSound decimal state =
    IsSound decimal state.config.bind_port state.config.volume_gain state.config.deemphasis_tau_us
      state.config.input_file state.config.device_index state.device_option_seen
      state.input_file_option_seen

module _ {ℓ} {A : Type ℓ} {D : Type 0} where
  -- An option that goes on had a value.
  pub or_error_goes_on :
      (value : Option A) (next : A → CliState D) (loop : CliState D → ParseResult D)
      (config : ServerConfig D) (level : LogLevel)
      → proceed_with (or_error value next) loop ≡ parsed config level
      → (given : A) × (value ≡ some given) × (loop (next given) ≡ parsed config level)
  or_error_goes_on none next loop config level e = absurd cc
  or_error_goes_on (some given) next loop config level e = (given, refl, e)

module _ {D : Type 0} (decimal : Decimal D) (lowest : D) where
  float_not_below :
      (value : List ℕ) (least x : D)
      → parse_float_option decimal lowest value least ≡ some x
      → decimal.lt x least ≡ false
  unfolding parse_float_option
  float_not_below value least x e =
      let number = decimal.read value in
      if_both (λ (r : Option D). r ≡ some x → decimal.lt x least ≡ false)
        ((number.1 == 0)
          || not (number.1 == length value)
          || not (decimal.is_finite number.0)
          || decimal.lt number.0 least)
        _ _ (λ _ f. absurd cc)
        (λ good f.
          let same : number.0 ≡ x = cc in
          subst (λ y. decimal.lt y least ≡ false) same (ground (arith, good)))
        e

  nonzero_given :
      (value : Option D) (x : D)
      → nonzero decimal lowest value ≡ some x
      → (value ≡ some x) × (decimal.equal x (decimal.of_ℕ 0) ≡ false)
  nonzero_given none x e = absurd cc
  nonzero_given (some y) x e =
      if_both
        (λ (r : Option D).
          r ≡ some x → (some y ≡ some x) × (decimal.equal x (decimal.of_ℕ 0) ≡ false))
        (decimal.equal y (decimal.of_ℕ 0)) _ _ (λ _ f. absurd cc)
        (λ other f.
          let same : y ≡ x = cc in
          (f, subst (λ z. decimal.equal z (decimal.of_ℕ 0) ≡ false) same (ground (arith, other))))
        e

  finish_options-IsAccepted :
      (arguments_left : Bool) (state : CliState D) (config : ServerConfig D) (level : LogLevel)
      → StateIsSound decimal state
      → finish_options decimal lowest arguments_left state ≡ parsed config level
      → IsAccepted decimal config
  unfolding finish_options
  finish_options-IsAccepted arguments_left state config level sound e =
      if_both (λ (r : ParseResult D). r ≡ parsed config level → IsAccepted decimal config)
        arguments_left _ _ (λ _ f. absurd cc)
        (λ _.
          if_both (λ (r : ParseResult D). r ≡ parsed config level → IsAccepted decimal config)
            (state.device_option_seen && state.input_file_option_seen) _ _ (λ _ f. absurd cc)
            λ one f.
              let same : state.config ≡ config = cc in
              subst (IsAccepted decimal) same (record {
                has_port = sound.has_port;
                gain_not_below = sound.gain_not_below;
                gain_not_zero = sound.gain_not_zero;
                tau_not_below = sound.tau_not_below;
                named = sound.named;
                one_source = elim (Bool-cases state.device_option_seen) [
                  | inl seen ↦ inl (sound.no_file (ground (arith, seen, one)))
                  | inr unseen ↦ inr (sound.no_device unseen)
                ];
              }))
        e

  option_loop-IsAccepted :
      (arguments_left : Bool) (options : List CliOption) (state : CliState D)
      (config : ServerConfig D) (level : LogLevel)
      → StateIsSound decimal state
      → option_loop decimal lowest arguments_left options state ≡ parsed config level
      → IsAccepted decimal config
  unfolding option_loop handle_option
  option_loop-IsAccepted left [] state config level sound e =
      finish_options-IsAccepted left state config level sound e
  option_loop-IsAccepted left (host text ∷ options) state config level sound e =
      option_loop-IsAccepted left options _ config level sound e
  option_loop-IsAccepted left (port text ∷ options) state config level sound e =
      if_both
        (λ (r : Handled D).
          proceed_with r (option_loop decimal lowest left options) ≡ parsed config level
          → IsAccepted decimal config)
        (not (valid_port text)) _ _ (λ _ f. absurd cc)
        (λ fine f.
          option_loop-IsAccepted left options _ config level
            (record {
              has_port = ground (arith, fine);
              gain_not_below = sound.gain_not_below;
              gain_not_zero = sound.gain_not_zero;
              tau_not_below = sound.tau_not_below;
              named = sound.named;
              no_device = sound.no_device;
              no_file = sound.no_file;
            })
            f)
        e
  option_loop-IsAccepted left (device text ∷ options) state config level sound e =
      let given =
        or_error_goes_on (parse_device_index_option text) _
          (option_loop decimal lowest left options) config level e in
      option_loop-IsAccepted left options _ config level
        (record {
          has_port = sound.has_port;
          gain_not_below = sound.gain_not_below;
          gain_not_zero = sound.gain_not_zero;
          tau_not_below = sound.tau_not_below;
          named = sound.named;
          no_device = λ f. absurd cc;
          no_file = sound.no_file;
        })
        given.2
  option_loop-IsAccepted left (input_file [] ∷ options) state config level sound e = absurd cc
  option_loop-IsAccepted left (input_file (c ∷ path) ∷ options) state config level sound e =
      option_loop-IsAccepted left options _ config level
        (record {
          has_port = sound.has_port;
          gain_not_below = sound.gain_not_below;
          gain_not_zero = sound.gain_not_zero;
          tau_not_below = sound.tau_not_below;
          named = λ f. absurd cc;
          no_device = sound.no_device;
          no_file = λ f. absurd cc;
        })
        e
  option_loop-IsAccepted left (stereo_option text ∷ options) state config level sound e =
      let given =
        or_error_goes_on (parse_bool_option text) _ (option_loop decimal lowest left options) config
          level e in
      option_loop-IsAccepted left options _ config level sound given.2
  option_loop-IsAccepted left (rds text ∷ options) state config level sound e =
      let given =
        or_error_goes_on (parse_bool_option text) _ (option_loop decimal lowest left options) config
          level e in
      option_loop-IsAccepted left options _ config level sound given.2
  option_loop-IsAccepted left (demod_math text ∷ options) state config level sound e =
      let given =
        or_error_goes_on (parse_demod_math_option text) _ (option_loop decimal lowest left options)
          config level e in
      option_loop-IsAccepted left options _ config level sound given.2
  option_loop-IsAccepted left (volume_gain text ∷ options) state config level sound e =
      let given =
        or_error_goes_on
          (nonzero decimal lowest (parse_float_option decimal lowest text (decimal.of_ℕ 0))) _
          (option_loop decimal lowest left options) config level e in
      let number =
        nonzero_given (parse_float_option decimal lowest text (decimal.of_ℕ 0)) given.0 given.1 in
      option_loop-IsAccepted left options _ config level
        (record {
          has_port = sound.has_port;
          gain_not_below = float_not_below text (decimal.of_ℕ 0) given.0 number.0;
          gain_not_zero = number.1;
          tau_not_below = sound.tau_not_below;
          named = sound.named;
          no_device = sound.no_device;
          no_file = sound.no_file;
        })
        given.2
  option_loop-IsAccepted left (deemphasis_tau text ∷ options) state config level sound e =
      let given =
        or_error_goes_on (parse_float_option decimal lowest text (decimal.of_ℕ 0)) _
          (option_loop decimal lowest left options) config level e in
      option_loop-IsAccepted left options _ config level
        (record {
          has_port = sound.has_port;
          gain_not_below = sound.gain_not_below;
          gain_not_zero = sound.gain_not_zero;
          tau_not_below = float_not_below text (decimal.of_ℕ 0) given.0 given.1;
          named = sound.named;
          no_device = sound.no_device;
          no_file = sound.no_file;
        })
        given.2
  option_loop-IsAccepted left (log_level text ∷ options) state config level sound e =
      let given =
        or_error_goes_on (parse_log_level_option text) _ (option_loop decimal lowest left options)
          config level e in
      option_loop-IsAccepted left options _ config level sound given.2
  option_loop-IsAccepted left (fm_quality text ∷ options) state config level sound e =
      let given =
        or_error_goes_on (quality_interval decimal lowest text) _
          (option_loop decimal lowest left options) config level e in
      option_loop-IsAccepted left options _ config level sound given.2
  option_loop-IsAccepted left (verbose ∷ options) state config level sound e =
      option_loop-IsAccepted left options _ config level sound e
  option_loop-IsAccepted left (version ∷ options) state config level sound e = absurd cc
  option_loop-IsAccepted left (help ∷ options) state config level sound e = absurd cc
  option_loop-IsAccepted left (unknown ∷ options) state config level sound e = absurd cc

  -- Where options are accepted, and the default gain and time constant are above 0: the port is
  -- one, the gain is not below 0 and not 0, the time constant is not below 0, a file that is named
  -- has a name of at least one character, and there is no file or the device is the first one.
  pub parse_cli_options-IsAccepted :
      (options : List CliOption) (arguments_left : Bool) (config : ServerConfig D)
      (level : LogLevel)
      → decimal.lt (decimal.of_ℕ 1) (decimal.of_ℕ 0) ≡ false
      → decimal.equal (decimal.of_ℕ 1) (decimal.of_ℕ 0) ≡ false
      → decimal.lt (decimal.of_ℕ 50) (decimal.of_ℕ 0) ≡ false
      → parse_cli_options decimal lowest options arguments_left ≡ parsed config level
      → IsAccepted decimal config
  unfolding parse_cli_options
  parse_cli_options-IsAccepted options left config level not_below not_zero tau e =
      option_loop-IsAccepted left options (cli_start decimal lowest) config level
        (record {
          has_port = unfold valid_port strtoul read_digits count_spaces in refl;
          gain_not_below = not_below;
          gain_not_zero = not_zero;
          tau_not_below = tau;
          named = λ f. absurd cc;
          no_device = λ _. refl;
          no_file = λ _. refl;
        })
        e
