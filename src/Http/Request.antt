-- ===== src/Http/Request.antt =====
-- src/stream/http.c: `stream_http_parse_request`.
use mpxcast.Prelude.{
  ℕ, Bool, true, false, not, ◌||◌, Option, none, some, List, [], ◌∷◌, ◌++◌, leb, ◌==◌,
  if◌then◌else◌, or_else, length, take,
}
use mpxcast.CString.{same_text}
use mpxcast.Http.{
  StreamMode, mono, stereo, StreamContainer, wav, mpegts, Decimal, HttpRequest, HttpDefaults, Reply,
  accepted, method_not_allowed, not_found, bad_request, internal_server_error, with_value,
}
use mpxcast.Http.Numbers.{is_empty, has_char, parse_frequency_hz}

-- "GET", ".wav", ".ts"
abbrev pub get_text : List ℕ
get_text = 71 ∷ 69 ∷ 84 ∷ []

abbrev pub wav_text : List ℕ
wav_text = 46 ∷ 119 ∷ 97 ∷ 118 ∷ []

abbrev pub ts_text : List ℕ
ts_text = 46 ∷ 116 ∷ 115 ∷ []

abbrev pub extend_before : ℕ → Option (List ℕ × List ℕ) → Option (List ℕ × List ℕ)
extend_before c none = none
extend_before c (some split) = some (c ∷ split.0, split.1)

-- `strrchr(text, '.')`: the text before the last dot, and the text from it on.
unfoldable pub split_last_dot : List ℕ → Option (List ℕ × List ℕ)
split_last_dot [] = none
split_last_dot (c ∷ cs) =
    let rest = split_last_dot cs in
    or_else (extend_before c rest) (if c == 46 then some ([], c ∷ cs) else none)

-- The container that a text from its last dot on names.
abbrev pub container_of : List ℕ → Option StreamContainer
container_of from_dot =
    if same_text from_dot wav_text
    then some wav
    else if same_text from_dot ts_text
    then some mpegts
    else none

abbrev pub with_container : List ℕ → Option StreamContainer → Option (List ℕ × StreamContainer)
with_container before none = none
with_container before (some container) = some (before, container)

abbrev pub extension_container :
    List ℕ → Option (List ℕ × List ℕ) → Option (List ℕ × StreamContainer)
extension_container text none = some (text, mpegts)
extension_container text (some split) = with_container split.0 (container_of split.1)

unfoldable pub split_container_extension : List ℕ → Option (List ℕ × StreamContainer)
split_container_extension text = extension_container text (split_last_dot text)

-- `lookup_first_parameter`; the alias is NULL for most names.
abbrev pub lookup_first_parameter :
    {Name : Type 0} → (Name → Option (List ℕ)) → Name → Option Name → Option (List ℕ)
lookup_first_parameter lookup name none = lookup name
lookup_first_parameter lookup name (some alias) = or_else (lookup name) (lookup alias)

-- A parameter that is absent or empty keeps the value; `none` for a result of false.
unfoldable pub parse_bool_parameter : Option (List ℕ) → Bool → Option Bool
parse_bool_parameter none enabled = some enabled
parse_bool_parameter (some []) enabled = some enabled
parse_bool_parameter (some (c ∷ cs)) enabled =
    if same_text (c ∷ cs) (49 ∷ [])
    then some true
    else if same_text (c ∷ cs) (48 ∷ [])
    then some false
    else none

-- The names of the query parameters, and the second name that two of them have.
pub data Parameter : Type 0 where
  stereo_param rds_param volume_gain_param vol_param deemphasis_tau_param deemphasis_param
        name_param :
      Parameter

module _ {D : Type 0} (decimal : Decimal D) where
  unfoldable pub parse_float_parameter : Option (List ℕ) → D → D → Option D
  parse_float_parameter none min_value result = some result
  parse_float_parameter (some []) min_value result = some result
  parse_float_parameter (some (c ∷ cs)) min_value result =
      let parsed = decimal.read (c ∷ cs) in
      if (parsed.1 == 0)
        || not (parsed.1 == length (c ∷ cs))
        || not (decimal.is_finite parsed.0)
        || decimal.lt parsed.0 min_value
      then none
      else some parsed.0

  -- The volume gain is refused at 0 as well, wherever it comes from.
  abbrev pub refuse_zero : Option D → Option D
  refuse_zero none = none
  refuse_zero (some gain) = if decimal.equal gain (decimal.of_ℕ 0) then none else some gain

  unfoldable pub parse_volume_gain : Option (List ℕ) → D → Option D
  parse_volume_gain value default =
      refuse_zero (parse_float_parameter value (decimal.of_ℕ 0) default)

abbrev pub put_before_zeros : ℕ → List ℕ → List ℕ
put_before_zeros c [] = if c == 48 then [] else c ∷ []
put_before_zeros c (d ∷ cs) = c ∷ d ∷ cs

-- The loop that takes zeros from the end of a text.
unfoldable pub trim_zeros : List ℕ → List ℕ
trim_zeros [] = []
trim_zeros (c ∷ cs) = let rest = trim_zeros cs in put_before_zeros c rest

unfoldable pub trim_dot : List ℕ → List ℕ
trim_dot [] = []
trim_dot (c ∷ []) = if c == 46 then [] else c ∷ []
trim_dot (c ∷ d ∷ cs) = c ∷ trim_dot (d ∷ cs)

-- " MHz"
abbrev pub mhz_text : List ℕ
mhz_text = 32 ∷ 77 ∷ 72 ∷ 122 ∷ []

-- `print_mhz` is what `snprintf` makes of "%.3f" and the frequency in MHz; it has room for 31
-- characters, the name for 128.
unfoldable pub format_default_station_name : (ℕ → List ℕ) → ℕ → Option (List ℕ)
format_default_station_name print_mhz frequency_hz =
    let text = print_mhz frequency_hz in
    let station_name = trim_dot (trim_zeros text) ++ mhz_text in
    if leb 32 (length text)
    then none
    else if leb 129 (length station_name)
    then none
    else some station_name

abbrev pub with_frequency : StreamContainer → Option ℕ → Option (ℕ × StreamContainer)
with_frequency container none = none
with_frequency container (some hz) = some (hz, container)

abbrev pub frequency_of :
    {D : Type 0} → Decimal D → Option (List ℕ × StreamContainer) → Option (ℕ × StreamContainer)
frequency_of decimal none = none
frequency_of decimal (some split) = with_frequency split.1 (parse_frequency_hz decimal split.0)

-- The path: '/', and a frequency that may name a container. `none` for 404.
unfoldable pub parse_path : {D : Type 0} → Decimal D → List ℕ → Option (ℕ × StreamContainer)
parse_path decimal [] = none
parse_path decimal (slash ∷ path_frequency) =
    if not (slash == 47)
      || is_empty path_frequency
      || has_char 47 path_frequency
      || leb 64 (length path_frequency)
    then none
    else frequency_of decimal (split_container_extension path_frequency)

abbrev pub is_stereo : StreamMode → Bool
is_stereo mono = false
is_stereo stereo = true

-- What `strncpy` leaves of a name in its 129 places.
abbrev pub station_name_of : Option (List ℕ) → List ℕ
station_name_of none = []
station_name_of (some value) = take 128 value

module _ {D : Type 0} (print_mhz : ℕ → List ℕ) where
  -- The end of the function: the name, or the default one.
  unfoldable pub name_request : Option (List ℕ) → HttpRequest D → Reply D
  name_request value request =
      let station_name = station_name_of value in
      if not (is_empty station_name)
      then accepted
          (record request { explicit_station_name = true; requested_station_name = station_name })
      else with_value (format_default_station_name print_mhz request.frequency_hz)
          internal_server_error
          (λ default_name. accepted (record request {
            explicit_station_name = false;
            requested_station_name = default_name;
          }))

module _ {D : Type 0} (decimal : Decimal D) (print_mhz : ℕ → List ℕ) where
  -- The query parameters, in the order of the code; each changes the request and goes on.
  unfoldable pub parse_deemphasis : (Parameter → Option (List ℕ)) → HttpRequest D → Reply D
  parse_deemphasis lookup request =
      with_value
        (parse_float_parameter decimal
          (lookup_first_parameter lookup deemphasis_tau_param (some deemphasis_param))
          (decimal.of_ℕ 0) request.deemphasis_tau_us)
        bad_request
        λ tau.
          name_request print_mhz (lookup_first_parameter lookup name_param none)
            (record request { deemphasis_tau_us = tau })

  unfoldable pub parse_volume : (Parameter → Option (List ℕ)) → HttpRequest D → Reply D
  parse_volume lookup request =
      with_value
        (parse_volume_gain decimal
          (lookup_first_parameter lookup volume_gain_param (some vol_param)) request.volume_gain)
        bad_request λ gain. parse_deemphasis lookup (record request { volume_gain = gain })

  unfoldable pub parse_rds : (Parameter → Option (List ℕ)) → HttpRequest D → Reply D
  parse_rds lookup request =
      with_value
        (parse_bool_parameter (lookup_first_parameter lookup rds_param none) request.rds_enabled)
        bad_request λ enabled. parse_volume lookup (record request { rds_enabled = enabled })

  unfoldable pub parse_stereo : (Parameter → Option (List ℕ)) → HttpRequest D → Reply D
  parse_stereo lookup request =
      with_value
        (parse_bool_parameter (lookup_first_parameter lookup stereo_param none)
          (is_stereo request.mode))
        bad_request
        λ enabled. parse_rds lookup (record request { mode = if enabled then stereo else mono })

  -- `url` is the path of the request without its query.
  unfoldable pub parse_request :
      List ℕ → List ℕ → Bool → HttpDefaults D → (Parameter → Option (List ℕ)) → Reply D
  parse_request method url icy_metadata_requested defaults lookup =
      if not (same_text method get_text)
      then method_not_allowed
      else with_value (parse_path decimal url) not_found (λ found. parse_stereo lookup (record {
        icy_metadata_requested = icy_metadata_requested;
        rds_enabled = defaults.rds_enabled;
        explicit_station_name = false;
        frequency_hz = found.0;
        volume_gain = defaults.volume_gain;
        deemphasis_tau_us = defaults.deemphasis_tau_us;
        mode = defaults.mode;
        container = found.1;
        requested_station_name = [];
      }))
