-- ===== src/Http.antt =====
-- src/stream/http.c and http.h: from a request to the stream that it asks for. Strings are texts
-- without their NUL. What libc does with floating-point text is a parameter.
pub mod Numbers
pub mod Request
pub mod RoundTrip
pub mod Accepted
pub mod Runs
use mpxcast.Prelude.{ℕ, Bool, Option, none, some, List}

-- `enum stream_mode` and `enum stream_container`
pub data StreamMode : Type 0 where
  mono stereo : StreamMode

pub data StreamContainer : Type 0 where
  wav mpegts : StreamContainer

-- What the code calls for a floating-point type: `strtod` or `strtof`, which give the value and how
-- many characters they read, `isfinite`, the comparisons, `*`, the cast from an integer and
-- `llround`.
pub record Decimal (D : Type 0) : Type 0 where
  pub read : List ℕ → D × ℕ
  pub is_finite : D → Bool
  pub lt : D → D → Bool
  pub le : D → D → Bool
  pub equal : D → D → Bool
  pub multiply : D → D → D
  pub of_ℕ : ℕ → D
  pub round : D → ℕ

-- `struct stream_http_request` and `struct stream_http_defaults`
pub record HttpRequest (D : Type 0) : Type 0 where
  pub icy_metadata_requested : Bool
  pub rds_enabled : Bool
  pub explicit_station_name : Bool
  pub frequency_hz : ℕ
  pub volume_gain : D
  pub deemphasis_tau_us : D
  pub mode : StreamMode
  pub container : StreamContainer
  pub requested_station_name : List ℕ

pub record HttpDefaults (D : Type 0) : Type 0 where
  pub rds_enabled : Bool
  pub volume_gain : D
  pub deemphasis_tau_us : D
  pub mode : StreamMode

-- The result of the function: the request, or the status code and reason of a refusal. What a
-- refused request had been given so far is not read.
pub data Reply (D : Type 0) : Type 0 where
  accepted : HttpRequest D → Reply D
  method_not_allowed not_found bad_request internal_server_error : Reply D

abbrev pub status_code : {D : Type 0} → Reply D → ℕ
status_code (accepted request) = 200
status_code method_not_allowed = 405
status_code not_found = 404
status_code bad_request = 400
status_code internal_server_error = 500

-- Goes on with a value, or refuses.
abbrev pub with_value {ℓ} : {A : Type ℓ} {D : Type 0} → Option A → Reply D → (A → Reply D) → Reply D
with_value none refusal next = refusal
with_value (some value) refusal next = next value
