-- ===== src/Http/Accepted.antt =====
-- src/stream/http.c: what holds of every request that is accepted.
use mpxcast.Prelude.{
  ℕ, ◌≤◌, ◌<◌, ◌≡◌, refl, sym, subst, Bool, false, not, Option, none, some, List, [], ◌∷◌, ◌++◌,
  arith, leb, if◌then◌else◌, length, take, length-append, length-take, if_both,
}
use mpxcast.CString.{same_text}
use mpxcast.Http.{
  StreamContainer, Decimal, HttpRequest, HttpDefaults, Reply, accepted, method_not_allowed,
  not_found, bad_request, internal_server_error, with_value, mono, stereo,
}
use mpxcast.Http.Numbers.{is_empty}
use mpxcast.Http.Request.{
  Parameter, stereo_param, rds_param, volume_gain_param, vol_param, deemphasis_tau_param,
  deemphasis_param, name_param, lookup_first_parameter, is_stereo, get_text, mhz_text, trim_zeros,
  trim_dot, format_default_station_name, station_name_of, name_request, parse_bool_parameter,
  parse_float_parameter, parse_volume_gain, parse_deemphasis, parse_volume, parse_rds, parse_stereo,
  parse_path, parse_request,
}

-- The name fits its array and is not empty, and frequency and container are those of the path.
abbrev pub IsSound : {D : Type 0} → Option (ℕ × StreamContainer) → Reply D → Type 0
IsSound asked (accepted request) =
    (0 < length request.requested_station_name)
    × (length request.requested_station_name ≤ 128)
    × (asked ≡ some (request.frequency_hz, request.container))
IsSound asked method_not_allowed = Unit
IsSound asked not_found = Unit
IsSound asked bad_request = Unit
IsSound asked internal_server_error = Unit

-- What holds of the refusal and of every way on holds of both.
with_value-both :
    {A D : Type 0} (P : Reply D → Type 0) (o : Option A) (refusal : Reply D) (next : A → Reply D)
    → P refusal
    → ((value : A) → o ≡ some value → P (next value))
    → P (with_value o refusal next)
with_value-both P none refusal next refused goes_on = refused
with_value-both P (some value) refusal next refused goes_on = goes_on value refl

default_name_size :
    (print_mhz : ℕ → List ℕ) (hz : ℕ) (station_name : List ℕ)
    → format_default_station_name print_mhz hz ≡ some station_name
    → (0 < length station_name) × (length station_name ≤ 128)
unfolding format_default_station_name
default_name_size print_mhz hz station_name =
    let trimmed = trim_dot (trim_zeros (print_mhz hz)) in
    if_both
      (λ (r : Option (List ℕ)).
        r ≡ some station_name → (0 < length station_name) × (length station_name ≤ 128))
      (leb 32 (length (print_mhz hz))) _ _ (λ _ e. absurd cc)
      λ _.
        if_both
          (λ (r : Option (List ℕ)).
            r ≡ some station_name → (0 < length station_name) × (length station_name ≤ 128))
          (leb 129 (length (trimmed ++ mhz_text))) _ _ (λ _ e. absurd cc)
          λ short e.
            subst (λ (t : List ℕ). (0 < length t) × (length t ≤ 128)) (some_text e)
              (omega (arith, length-append trimmed mhz_text), ground (arith, short))
  where
    some_text : {x y : List ℕ} → some x ≡ some y → x ≡ y
    some_text e = cc

given_name_size :
    (value : Option (List ℕ))
    → is_empty (station_name_of value) ≡ false
    → (0 < length (station_name_of value)) × (length (station_name_of value) ≤ 128)
given_name_size none h = absurd (ground (arith, h))
given_name_size (some value) h = (nonempty (take 128 value) h, omega (arith, length-take 128 value))
  where
    nonempty : (text : List ℕ) → is_empty text ≡ false → 0 < length text
    nonempty [] e = absurd (ground (arith, e))
    nonempty (c ∷ cs) e = omega arith

module _ {D : Type 0} (print_mhz : ℕ → List ℕ) where
  name_request-IsSound :
      (value : Option (List ℕ)) (request : HttpRequest D)
      → IsSound
          (some (request.frequency_hz, request.container))
          (name_request print_mhz value request)
  unfolding name_request
  name_request-IsSound value request =
      let asked = some (request.frequency_hz, request.container) in
      if_both (IsSound asked) (not (is_empty (station_name_of value))) _ _
        (λ given.
          let size = given_name_size value (ground (arith, given)) in (size.0, size.1, refl))
        λ _.
          with_value-both (IsSound asked)
            (format_default_station_name print_mhz request.frequency_hz) internal_server_error _ tt
            λ default_name e.
              let size = default_name_size print_mhz request.frequency_hz default_name e in
              (size.0, size.1, refl)

module _ {D : Type 0} (decimal : Decimal D) (print_mhz : ℕ → List ℕ) where
  parse_deemphasis-IsSound :
      (lookup : Parameter → Option (List ℕ)) (request : HttpRequest D)
      → IsSound
          (some (request.frequency_hz, request.container))
          (parse_deemphasis decimal print_mhz lookup request)
  unfolding parse_deemphasis
  parse_deemphasis-IsSound lookup request =
      with_value-both (IsSound (some (request.frequency_hz, request.container)))
        (parse_float_parameter decimal
          (lookup_first_parameter lookup deemphasis_tau_param (some deemphasis_param))
          (decimal.of_ℕ 0) request.deemphasis_tau_us)
        bad_request _ tt
        λ value _.
          name_request-IsSound print_mhz (lookup_first_parameter lookup name_param none)
            (record request { deemphasis_tau_us = value })

  parse_volume-IsSound :
      (lookup : Parameter → Option (List ℕ)) (request : HttpRequest D)
      → IsSound
          (some (request.frequency_hz, request.container))
          (parse_volume decimal print_mhz lookup request)
  unfolding parse_volume
  parse_volume-IsSound lookup request =
      with_value-both (IsSound (some (request.frequency_hz, request.container)))
        (parse_volume_gain decimal
          (lookup_first_parameter lookup volume_gain_param (some vol_param)) request.volume_gain)
        bad_request _ tt
        λ value _. parse_deemphasis-IsSound lookup (record request { volume_gain = value })

  parse_rds-IsSound :
      (lookup : Parameter → Option (List ℕ)) (request : HttpRequest D)
      → IsSound
          (some (request.frequency_hz, request.container))
          (parse_rds decimal print_mhz lookup request)
  unfolding parse_rds
  parse_rds-IsSound lookup request =
      with_value-both (IsSound (some (request.frequency_hz, request.container)))
        (parse_bool_parameter (lookup_first_parameter lookup rds_param none) request.rds_enabled)
        bad_request _ tt
        λ value _. parse_volume-IsSound lookup (record request { rds_enabled = value })

  parse_stereo-IsSound :
      (lookup : Parameter → Option (List ℕ)) (request : HttpRequest D)
      → IsSound
          (some (request.frequency_hz, request.container))
          (parse_stereo decimal print_mhz lookup request)
  unfolding parse_stereo
  parse_stereo-IsSound lookup request =
      with_value-both (IsSound (some (request.frequency_hz, request.container)))
        (parse_bool_parameter (lookup_first_parameter lookup stereo_param none)
          (is_stereo request.mode))
        bad_request _ tt
        λ value _.
          parse_rds-IsSound lookup (record request { mode = if value then stereo else mono })

  -- Whatever the method, path, defaults and query are: if the request is accepted, its frequency
  -- and container are the ones that its path names, and its station name has 1 to 128 characters.
  pub parse_request-IsSound :
      (method url : List ℕ) (icy_metadata_requested : Bool) (defaults : HttpDefaults D)
      (lookup : Parameter → Option (List ℕ))
      → IsSound
          (parse_path decimal url)
          (parse_request decimal print_mhz method url icy_metadata_requested defaults lookup)
  unfolding parse_request
  parse_request-IsSound method url icy_metadata_requested defaults lookup =
      if_both (IsSound (parse_path decimal url)) (not (same_text method get_text)) _ _ (λ _. tt)
        λ _.
          with_value-both (IsSound (parse_path decimal url)) (parse_path decimal url) not_found _ tt
            λ found e.
              let start : HttpRequest D = record {
                icy_metadata_requested = icy_metadata_requested;
                rds_enabled = defaults.rds_enabled;
                explicit_station_name = false;
                frequency_hz = found.0;
                volume_gain = defaults.volume_gain;
                deemphasis_tau_us = defaults.deemphasis_tau_us;
                mode = defaults.mode;
                container = found.1;
                requested_station_name = [];
              } in
              subst (λ asked. IsSound asked (parse_stereo decimal print_mhz lookup start)) (sym e)
                (parse_stereo-IsSound lookup start)
