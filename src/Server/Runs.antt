-- ===== src/Server/Runs.antt =====
-- Concrete runs of src/stream/server.c, and the theorems at concrete inputs.
use mpxcast.Prelude.{
  ◌⊎◌, ℕ, ◌≡◌, ◌≢◌, refl, true, false, Option, none, some, List, [], ◌∷◌, arith, length, replicate,
  map, length-replicate,
}
use mpxcast.CString.{c_string, same_text}
use mpxcast.Icy.{
  char_out, choose_title, copy_loop, icy_build_metadata_block, icy_copy_text, icy_metadata_init,
  icy_metadata_update, store_metadata, trim_end,
}
use mpxcast.MpegTs.{mux_init}
use mpxcast.Http.{HttpRequest, mono, wav}
use mpxcast.Http.Numbers.{
  count_spaces, frequency_of_hz, has_char, parse_frequency_hz, read_digits, strtoul,
}
use mpxcast.Http.Request.{
  format_default_station_name, get_text, name_request, parse_bool_parameter, parse_deemphasis,
  parse_float_parameter, parse_path, parse_rds, parse_request, parse_stereo, parse_volume,
  parse_volume_gain, split_container_extension, split_last_dot, trim_dot, trim_zeros,
}
use mpxcast.Http.RoundTrip.{decimal_digits, path_of, wav_extension}
use mpxcast.Http.Runs.{whole_decimal}
use mpxcast.Session.{
  configure, current_rds_info, has_complete_radiotext, prelude_of, refresh_metadata, session_init,
}
use mpxcast.Session.Runs.{silent_dsp, silent-IsShort, whole_seconds, stereo_session}
use mpxcast.Wav.{build_prelude, stream_header}
use mpxcast.Server.{
  head_of, fill_chunk, Chunk, Client, Server, any_waits_at, clear_chunks, client_prelude,
  make_chunk_room, pack_chunk, produce_chunk, prune_chunks, prune_loop,
}
use mpxcast.Server.Queue.{queue_of, IsValid, queues, from_pointer, has_address}
use mpxcast.Server.Prune.{prune_chunks-IsValid}
use mpxcast.Server.Room.{IsRoomy, make_chunk_room-IsRoomy}
use mpxcast.Server.Append.{IsProduced, produce_chunk-IsProduced}
use mpxcast.Server.Clients.{content_free-IsValid}
use mpxcast.Server.Packing.{IsFull, IsSent, pack_chunk-IsSent}
use mpxcast.Server.Reading.{IsRead, content_reader-IsRead}
use mpxcast.Server.Reach.{here, next, requested, server_init, Reach-reads_safely}
use mpxcast.Server.Delivery.{IsDelivered}
use mpxcast.Server.Live.{Live-IsDelivered}
use mpxcast.Server.Reader.{
  Outcome, end_of_stream, bytes, freed_chunk_read, client_at, read_client, content_reader,
  content_free,
}
use mpxcast.Server.Request.{
  start_session, handle_request, serve_request, add_client, request_matches_session,
}

abbrev silence : ℕ → Chunk
silence address = record { address = address; frame_count = 1024; samples = replicate 2048 0 }

silence-IsFull : (address : ℕ) → IsFull (silence address)
silence-IsFull address = record {
  frames = refl;
  samples = omega (arith, length-replicate {A = ℕ} 2048 0);
}

-- A client of a session that wants no titles and had its header.
abbrev listener : ℕ → ℕ → Option ℕ → Client
listener address session_id next_chunk = record {
  address = address;
  next_chunk = next_chunk;
  mpegts_mux = mux_init 1;
  icy = icy_metadata_init false;
  session_id = session_id;
  logged_session_id = session_id;
  prelude_pending = false;
  dropped_for_lag = false;
  mode = mono;
  container = wav;
  requested_frequency_hz = 98800000;
  request_method = get_text;
  request_path = path_of 98800000 wav_extension;
  requested_station_name = 72 ∷ 105 ∷ [];
}

abbrev mono_request : HttpRequest ℕ
mono_request = record {
  icy_metadata_requested = true;
  rds_enabled = true;
  explicit_station_name = false;
  frequency_hz = 98800000;
  volume_gain = 1;
  deemphasis_tau_us = 50;
  mode = mono;
  container = wav;
  requested_station_name = 72 ∷ 105 ∷ [];
}

-- The chunks 1, 3 and 4: the first client waits for the last two, the second for a new one, and the
-- third is of an old session.
abbrev busy : Server Unit ℕ
busy = record {
  session = stereo_session;
  session_request = mono_request;
  active_session_id = 2;
  session_active = true;
  chunks = silence 1 ∷ silence 3 ∷ silence 4 ∷ [];
  chunk_tail = some 4;
  chunk_count = 3;
  clients = listener 5 2 (some 3) ∷ listener 2 2 none ∷ listener 0 1 (some 7) ∷ [];
  next_address = 6;
}

busy-IsValid : IsValid busy
unfolding from_pointer has_address
busy-IsValid = record {
  queue = record { counted = refl; bounded = omega arith; ends = refl };
  ascending = (omega arith, (omega arith, (omega arith, omega arith)));
  safe = ((λ _. refl), ((λ _. tt), ((λ e. absurd (omega (arith, e))), tt)));
  known = (omega arith, (omega arith, (omega arith, tt)));
  started = λ _. omega arith;
  numbered = λ _. omega arith;
  apart = (omega arith, (omega arith, (omega arith, tt)));
}

busy-queues : queues busy ≡ some (silence 3 ∷ silence 4 ∷ []) ∷ some [] ∷ none ∷ []
unfolding from_pointer
busy-queues = refl

-- The first chunk goes, for nobody waits for it.
busy_pruned : (prune_chunks busy).chunks ≡ silence 3 ∷ silence 4 ∷ []
unfolding prune_chunks prune_loop any_waits_at
busy_pruned = refl

prune_chunks-IsValid_example :
    let pruned = prune_chunks busy in
    IsValid pruned
    × (queues pruned ≡ queues busy)
    × ((pruned.chunks ≡ [])
        ⊎ (any_waits_at pruned.active_session_id (head_of pruned.chunks) pruned.clients ≡ true))
prune_chunks-IsValid_example = prune_chunks-IsValid busy busy-IsValid

make_chunk_room-IsRoomy_example : IsRoomy busy (make_chunk_room busy)
make_chunk_room-IsRoomy_example = make_chunk_room-IsRoomy busy busy-IsValid

produce_chunk-IsProduced_example :
    IsProduced busy
      (fill_chunk silent_dsp true true busy.session)
      (produce_chunk silent_dsp true true busy)
produce_chunk-IsProduced_example = produce_chunk-IsProduced silent_dsp true true busy busy-IsValid

content_free-IsValid_example :
    let t = content_free 5 busy in
    let left = listener 2 2 none ∷ listener 0 1 (some 7) ∷ [] in
    IsValid t
    × (t.clients ≡ left)
    × (client_at t.clients 5 ≡ none)
    × (queues t ≡ map (queue_of 2 busy.chunks) left)
    × (t.session_active ≡ true)
    × ((t.chunks ≡ []) ⊎ (any_waits_at t.active_session_id (head_of t.chunks) t.clients ≡ true))
content_free-IsValid_example = content_free-IsValid 5 busy busy-IsValid

pack_chunk-IsSent_example :
    IsSent
      (listener 5 2 (some 3))
      (silence 3)
      (pack_chunk (listener 5 2 (some 3)) (silence 3) (icy_metadata_init true))
unfolding icy_metadata_init
pack_chunk-IsSent_example =
    pack_chunk-IsSent (listener 5 2 (some 3)) (silence 3) (icy_metadata_init true)
      (silence-IsFull 3) (λ on. absurd cc)

content_reader-IsRead_example :
    IsRead busy
      (listener 5 2 (some 3))
      (content_reader silent_dsp whole_seconds true true 0 0 32768 5 busy)
unfolding icy_metadata_init client_at
content_reader-IsRead_example =
    content_reader-IsRead silent_dsp whole_seconds true true 0 0 32768 busy (listener 5 2 (some 3))
      3 busy-IsValid (silence-IsFull 1, (silence-IsFull 3, (silence-IsFull 4, tt))) refl refl refl
      refl refl (λ on. absurd cc) (omega arith)

-- A request for a station, and a step for a connection that has no client any more.
abbrev asked : Server Unit ℕ
asked =
    (handle_request silent_dsp whole_seconds whole_decimal (λ _. 57 ∷ 56 ∷ 46 ∷ 56 ∷ 48 ∷ 48 ∷ [])
      false false true true get_text (path_of 98800000 wav_extension) none
      (record { rds_enabled = true; volume_gain = 1; deemphasis_tau_us = 50; mode = mono })
      (λ _. none) (server_init stereo_session mono_request)).1

abbrev or_ended : Option (Outcome ℕ × Server Unit ℕ) → Outcome ℕ × Server Unit ℕ
or_ended none = (end_of_stream, asked)
or_ended (some result) = result

-- The first bytes that the connection of the new client reads.
abbrev first_read : Outcome ℕ × Server Unit ℕ
first_read = or_ended (content_reader silent_dsp whole_seconds true true 0 0 32768 0 asked)

first_stored : content_reader silent_dsp whole_seconds true true 0 0 32768 0 asked ≡ some first_read
unfolding content_reader read_client client_at handle_request serve_request add_client start_session
    request_matches_session parse_request parse_path same_text refresh_metadata split_last_dot
    split_container_extension parse_bool_parameter trim_zeros trim_dot format_default_station_name
    strtoul read_digits count_spaces has_char frequency_of_hz icy_metadata_init char_out copy_loop
    trim_end icy_copy_text store_metadata icy_build_metadata_block choose_title icy_metadata_update
    c_string session_init configure current_rds_info has_complete_radiotext prelude_of clear_chunks
    client_prelude build_prelude stream_header decimal_digits parse_frequency_hz parse_stereo
    parse_rds parse_volume parse_volume_gain parse_float_parameter parse_deemphasis name_request
first_stored = refl

Reach-reads_safely_example :
    (first_read.0 ≢ freed_chunk_read) × IsValid asked × IsValid first_read.1
Reach-reads_safely_example =
    Reach-reads_safely silent_dsp whole_seconds silent-IsShort whole_decimal
      (λ _. 57 ∷ 56 ∷ 46 ∷ 56 ∷ 48 ∷ 48 ∷ []) stereo_session mono_request asked first_read.1 true
      true 0 0 32768 0 first_read.0
      (next here (
        requested false false true true get_text (path_of 98800000 wav_extension) none
          (record { rds_enabled = true; volume_gain = 1; deemphasis_tau_us = 50; mode = mono })
          (λ _. none) (omega arith) refl))
      first_stored

-- The header of a WAV stream.
abbrev bytes_of : Outcome ℕ → List ℕ
bytes_of (bytes sent) = sent
bytes_of other = []

first_read_header : length (bytes_of first_read.0) ≡ 44
unfolding content_reader read_client client_at handle_request serve_request add_client start_session
    request_matches_session parse_request parse_path same_text refresh_metadata split_last_dot
    split_container_extension parse_bool_parameter trim_zeros trim_dot format_default_station_name
    strtoul read_digits count_spaces has_char frequency_of_hz icy_metadata_init char_out copy_loop
    trim_end icy_copy_text store_metadata icy_build_metadata_block choose_title icy_metadata_update
    c_string session_init configure current_rds_info has_complete_radiotext prelude_of clear_chunks
    client_prelude build_prelude stream_header decimal_digits parse_frequency_hz parse_stereo
    parse_rds parse_volume parse_volume_gain parse_float_parameter parse_deemphasis name_request
first_read_header = refl

Live-IsDelivered_example :
    IsDelivered (content_reader silent_dsp whole_seconds true true 0 0 32768 0 asked)
Live-IsDelivered_example =
    Live-IsDelivered silent_dsp whole_seconds silent-IsShort whole_decimal
      (λ _. 57 ∷ 56 ∷ 46 ∷ 56 ∷ 48 ∷ 48 ∷ []) stereo_session mono_request asked true 0 0 32768 0
      (mpxcast.Server.Live.next mpxcast.Server.Live.here (
        mpxcast.Server.Live.requested false false true true get_text
          (path_of 98800000 wav_extension) none
          (record { rds_enabled = true; volume_gain = 1; deemphasis_tau_us = 50; mode = mono })
          (λ _. none) (omega arith) refl))
      (omega arith)
