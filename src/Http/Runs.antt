-- ===== src/Http/Runs.antt =====
-- Concrete runs of src/stream/http.c, and the theorems at concrete inputs.
use mpxcast.Prelude.{ℕ, ◌-◌, ◌*◌, ◌^◌, ◌≡◌, refl, true, none, some, [], ◌∷◌, arith, ltb, leb, ◌==◌}
use mpxcast.Http.{mono, wav, Decimal, HttpDefaults}
use mpxcast.Http.Numbers.{strtoul, read_digits, count_spaces}
use mpxcast.Http.Request.{parse_path, parse_request, get_text}
use mpxcast.Http.RoundTrip.{path_of, wav_extension, parse_path-path_of}
use mpxcast.Http.Accepted.{IsSound, parse_request-IsSound}

-- Whole numbers in place of floats, to run the model.
abbrev pub whole_decimal : Decimal ℕ
whole_decimal = record {
  read = λ text. read_digits text 0 0;
  is_finite = λ _. true;
  lt = ltb;
  le = leb;
  equal = λ x y. x == y;
  multiply = λ x y. x * y;
  of_ℕ = λ n. n;
  round = λ n. n;
}

-- " -7x": four characters, of which the number has three.
reads_sign : strtoul (32 ∷ 45 ∷ 55 ∷ 120 ∷ []) ≡ (2 ^ 64 - 7, 3)
unfolding strtoul read_digits count_spaces
reads_sign = refl

parse_path-path_of_example :
    parse_path whole_decimal (path_of 98800000 wav_extension) ≡ some (98800000, wav)
parse_path-path_of_example =
    parse_path-path_of whole_decimal 98800000 wav_extension (omega arith) (omega arith)

abbrev defaults : HttpDefaults ℕ
defaults = record { rds_enabled = true; volume_gain = 1; deemphasis_tau_us = 50; mode = mono }

parse_request-IsSound_example :
    IsSound (parse_path whole_decimal (path_of 98800000 wav_extension)) (
      parse_request whole_decimal
        (λ _. 57 ∷ 56 ∷ 46 ∷ 56 ∷ 48 ∷ 48 ∷ [])
        get_text
        (path_of 98800000 wav_extension)
        true
        defaults
        (λ _. none))
parse_request-IsSound_example =
    parse_request-IsSound whole_decimal (λ _. 57 ∷ 56 ∷ 46 ∷ 56 ∷ 48 ∷ 48 ∷ []) get_text
      (path_of 98800000 wav_extension) true defaults (λ _. none)
