-- ===== src/Server/Request.antt =====
-- src/stream/server.c: `handle_request`, which starts a stream for a client.
use mpxcast.Prelude.{
  ℕ, ◌+◌, Bool, true, false, not, ◌&&◌, ◌||◌, Option, none, some, List, [], ◌∷◌, ◌==◌,
  if◌then◌else◌, take, u64,
}
use mpxcast.CString.{same_text}
use mpxcast.Http.{
  StreamMode, mono, stereo, StreamContainer, wav, mpegts, Decimal, HttpRequest, HttpDefaults, Reply,
  accepted, method_not_allowed, not_found, bad_request, internal_server_error,
}
use mpxcast.Http.Request.{Parameter, parse_request, get_text}
use mpxcast.MpegTs.{mux_init}
use mpxcast.Session.{
  Session, Settings, Dsp, Seconds, channels_of, session_init, configure, refresh_metadata,
}
use mpxcast.Server.{Client, Server, clear_chunks}

abbrev pub same_mode : StreamMode → StreamMode → Bool
same_mode mono mono = true
same_mode mono stereo = false
same_mode stereo mono = false
same_mode stereo stereo = true

abbrev pub same_container : StreamContainer → StreamContainer → Bool
same_container wav wav = true
same_container wav mpegts = false
same_container mpegts wav = false
same_container mpegts mpegts = true

abbrev pub same_flag : Bool → Bool → Bool
same_flag true x = x
same_flag false x = not x

-- "/cover.png", and "1"
abbrev pub cover_text : List ℕ
cover_text = 47 ∷ 99 ∷ 111 ∷ 118 ∷ 101 ∷ 114 ∷ 46 ∷ 112 ∷ 110 ∷ 103 ∷ []

abbrev pub one_text : List ℕ
one_text = 49 ∷ []

abbrev pub is_one : Option (List ℕ) → Bool
is_one none = false
is_one (some text) = same_text text one_text

-- What the server answers: it waits for more of the request, it sends the cover, it sends an empty
-- response with a status, or it opens the stream of the client at an address.
pub data Answer : Type 0 where
  go_on cover : Answer
  empty : ℕ → Answer
  stream : ℕ → Answer

module _ {P D : Type 0} (decimal : Decimal D) where
  unfoldable pub request_matches_session : Server P D → HttpRequest D → Bool
  request_matches_session server request =
      let current = server.session_request in
      server.session_active
      && (current.frequency_hz == request.frequency_hz)
      && decimal.equal current.volume_gain request.volume_gain
      && decimal.equal current.deemphasis_tau_us request.deemphasis_tau_us
      && same_mode current.mode request.mode
      && same_container current.container request.container
      && same_flag current.rds_enabled request.rds_enabled
      && same_flag current.icy_metadata_requested request.icy_metadata_requested

abbrev pub settings_of : {D : Type 0} → HttpRequest D → Settings D
settings_of request = record {
  requested_frequency_hz = request.frequency_hz;
  volume_gain = request.volume_gain;
  deemphasis_tau_us = request.deemphasis_tau_us;
  mode = request.mode;
  container = request.container;
  requested_station_name = request.requested_station_name;
  explicit_station_name = request.explicit_station_name;
  rds_enabled = request.rds_enabled;
  icy_metadata_enabled = request.icy_metadata_requested;
}

-- The new client, which `calloc` gave an address.
abbrev pub new_client : {P D : Type 0} → Server P D → List ℕ → List ℕ → HttpRequest D → Client
new_client server method url request = record {
  address = server.next_address;
  next_chunk = none;
  mpegts_mux = mux_init (channels_of request.mode);
  icy = server.session.icy;
  session_id = server.active_session_id;
  logged_session_id = server.active_session_id;
  prelude_pending = true;
  dropped_for_lag = false;
  mode = request.mode;
  container = request.container;
  requested_frequency_hz = request.frequency_hz;
  request_method = take 15 method;
  request_path = take 2047 url;
  requested_station_name = take 128 request.requested_station_name;
}

module _ {P D : Type 0} where
  -- The end of the function: the client is put in front.
  unfoldable pub add_client : List ℕ → List ℕ → HttpRequest D → Server P D → Server P D
  add_client method url request server = record server {
    clients = new_client server method url request ∷ server.clients;
    next_address = server.next_address + 1;
  }

  -- After the metadata: the new session is the active one, or the request fails.
  abbrev pub activate : HttpRequest D → Server P D → Bool × Session P D → Bool × Server P D
  activate request server (false, session) = (false, record server { session = session })
  activate request server (true, session) = (
    true,
    record server {
      session = session;
      session_request = request;
      session_active = true;
      active_session_id = u64 (server.active_session_id + 1);
    },
  )

  -- A request for another station, which was tuned: the chunks are freed and a session starts.
  unfoldable pub start_session :
      Dsp P D → Seconds D → HttpRequest D → Server P D → Bool × Server P D
  start_session dsp time request server =
      activate request (clear_chunks server)
        (refresh_metadata dsp (configure dsp (session_init dsp time) (settings_of request)))

  abbrev pub open_stream : List ℕ → List ℕ → HttpRequest D → Bool × Server P D → Answer × Server P D
  open_stream method url request (false, server) = (empty 500, server)
  open_stream method url request (true, server) =
      (stream server.next_address, add_client method url request server)

module _ {P D : Type 0} (dsp : Dsp P D) (time : Seconds D) (decimal : Decimal D)
    (print_mhz : ℕ → List ℕ) where
  -- `tuned` is whether `rtl_source_tune` succeeds.
  unfoldable pub serve_request :
      Bool → List ℕ → List ℕ → HttpRequest D → Server P D → Answer × Server P D
  serve_request tuned method url request server =
      if request_matches_session decimal server request
      then open_stream method url request (true, server)
      else if not tuned
      then (empty 503, server)
      else open_stream method url request (start_session dsp time request server)

  abbrev pub serve_reply :
      Bool → Bool → List ℕ → List ℕ → Reply D → Server P D → Answer × Server P D
  serve_reply allocated tuned method url (accepted request) server =
      if not allocated then (empty 500, server) else serve_request tuned method url request server
  serve_reply allocated tuned method url method_not_allowed server = (empty 405, server)
  serve_reply allocated tuned method url not_found server = (empty 404, server)
  serve_reply allocated tuned method url bad_request server = (empty 400, server)
  serve_reply allocated tuned method url internal_server_error server = (empty 500, server)

  -- `first_call` and `has_upload` are the tests of `con_cls` and `upload_data_size`, `allocated` is
  -- whether `calloc` succeeds; `icy_metadata` is the header "Icy-MetaData".
  unfoldable pub handle_request :
      Bool
      → Bool
      → Bool
      → Bool
      → List ℕ
      → List ℕ
      → Option (List ℕ)
      → HttpDefaults D
      → (Parameter → Option (List ℕ))
      → Server P D
      → Answer × Server P D
  handle_request first_call has_upload allocated tuned method url icy_metadata defaults lookup
        server =
      if first_call || has_upload
      then (go_on, server)
      else if same_text method get_text && same_text url cover_text
      then (cover, server)
      else serve_reply allocated tuned method url
          (parse_request decimal print_mhz method url (is_one icy_metadata) defaults lookup) server
