-- ===== src/Session.antt =====
-- src/stream/session.c and session.h: a tuned station, from samples to the bytes of a stream. The
-- signal processing is a parameter; a `double` or `float` is of the type `D`.
pub mod Packing
pub mod Titles
pub mod Tuned
pub mod Runs
use mpxcast.Prelude.{
  ℕ, ◌+◌, ◌*◌, Bool, true, false, not, ◌&&◌, ◌||◌, Option, none, some, List, [], ◌∷◌, ◌==◌,
  if◌then◌else◌, get_or, take, replicate, overwrite, u64, u8, ◌>>>◌,
}
use mpxcast.CString.{strcmp_equal, strcpy}
use mpxcast.Parser.{StationInfo, station_info_init}
use mpxcast.Icy.{
  IcyMetadata, Wrapped, title_max_length, icy_metadata_init, icy_copy_text, icy_metadata_update,
  icy_metadata_wrap,
}
use mpxcast.MpegTs.{MuxState, mux_init}
use mpxcast.MpegTs.Mux.{Muxed, write_audio}
use mpxcast.MpegTs.Mux
use mpxcast.Wav
use mpxcast.Http.{StreamMode, mono, stereo, StreamContainer, wav, mpegts}

-- STREAM_SESSION_MAX_AUDIO_FRAMES_PER_CHUNK and STREAM_SESSION_MAX_BODY_BYTES
abbrev pub max_audio_frames_per_chunk : ℕ
max_audio_frames_per_chunk = 1024

abbrev pub max_body_bytes : ℕ
max_body_bytes = 5264

abbrev pub channels_of : StreamMode → ℕ
channels_of stereo = 2
channels_of mono = 1

-- What the session calls of the signal processing, which has a state of the type `P`: the calls of
-- `stream_session_init` and of `stream_session_configure`, `fm_pipeline_process_live_block` with the
-- report on quality that may follow it, and the sound of a block. The demodulation and the interval
-- of the reports, which the server never changes, are part of `configure`.
pub record Dsp (P D : Type 0) : Type 0 where
  pub init : P
  pub configure : P → StreamMode → D → D → Bool → P
  pub process_live_block : P → P
  pub process_mono : P → P × List ℕ
  pub process_stereo : P → P × List ℕ
  pub get_station_info : P → StationInfo
  pub has_complete_radiotext : P → Bool

-- What the clock does with a `double`; `is_due` is the test `delay <= 0.0`.
pub record Seconds (D : Type 0) : Type 0 where
  pub zero_seconds : D
  pub add : D → D → D
  pub subtract : D → D → D
  pub divide : D → D → D
  pub of_ℕ : ℕ → D
  pub is_due : D → Bool

-- `struct stream_session`. `close_after_flush` and `body_buffer` hold nothing between two calls.
pub record Session (P D : Type 0) : Type 0 where
  pub stream_clock_started : Bool
  pub rds_enabled : Bool
  pub explicit_station_name : Bool
  pub metadata_length : ℕ
  pub audio_frames_queued : ℕ
  pub stream_started_at : D
  pub requested_frequency_hz : ℕ
  pub requested_station_name : List ℕ
  pub logged_radiotext : List ℕ
  pub mode : StreamMode
  pub container : StreamContainer
  pub icy : IcyMetadata
  pub mpegts_mux : MuxState
  pub pipeline : P
  pub pcm_buffer : List ℕ

-- The other parameters of `stream_session_configure`.
pub record Settings (D : Type 0) : Type 0 where
  pub requested_frequency_hz : ℕ
  pub volume_gain : D
  pub deemphasis_tau_us : D
  pub mode : StreamMode
  pub container : StreamContainer
  pub requested_station_name : List ℕ
  pub explicit_station_name : Bool
  pub rds_enabled : Bool
  pub icy_metadata_enabled : Bool

-- A sample of 16 bits as the two bytes of a little-endian machine.
unfoldable pub sample_bytes : List ℕ → List ℕ
sample_bytes [] = []
sample_bytes (x ∷ xs) = u8 x ∷ u8 (x >>> 8) ∷ sample_bytes xs

-- What is left of a chunk: the bytes, or `none` for -1, and the states that changed.
pub record Packed : Type 0 where
  pub output : Option (List ℕ)
  pub mux : MuxState
  pub icy : IcyMetadata

-- The body: packets of the mux, or the samples as they stand in memory.
unfoldable pub body_of : StreamMode → StreamContainer → MuxState → List ℕ → ℕ → ℕ → Option Muxed
body_of mode mpegts mux samples frame_count capacity = write_audio mux samples frame_count capacity
body_of mode wav mux samples frame_count capacity = some (record {
  output = some (take (Wav.body_size (channels_of mode) frame_count) (sample_bytes samples));
  state = mux;
})

abbrev pub keep_wrapped : MuxState → Option Wrapped → Option Packed
keep_wrapped mux none = none
keep_wrapped mux (some wrapped) =
    some (record { output = wrapped.output; mux = mux; icy = wrapped.state })

abbrev pub wrap_body : IcyMetadata → ℕ → MuxState → Option (List ℕ) → Option Packed
wrap_body icy capacity mux none = some (record { output = none; mux = mux; icy = icy })
wrap_body icy capacity mux (some body) =
    if not icy.enabled
    then some (record { output = some body; mux = mux; icy = icy })
    else keep_wrapped mux (icy_metadata_wrap icy body capacity)

-- Titles, where they are enabled, between the bytes of the body.
abbrev pub wrap_muxed : IcyMetadata → ℕ → Option Muxed → Option Packed
wrap_muxed icy capacity none = none
wrap_muxed icy capacity (some muxed) = wrap_body icy capacity muxed.state muxed.output

-- The tables, or the header, and the states that changed; `none` for -1.
abbrev pub keep_mux :
    MuxState → Option (List ℕ × IcyMetadata) → Option (List ℕ × IcyMetadata × MuxState)
keep_mux mux none = none
keep_mux mux (some built) = some (built.0, built.1, mux)

unfoldable pub prelude_of :
    StreamMode
    → StreamContainer
    → IcyMetadata
    → MuxState
    → ℕ
    → Option (List ℕ × IcyMetadata × MuxState)
prelude_of mode mpegts icy mux capacity = Mux.build_prelude icy mux capacity
prelude_of mode wav icy mux capacity =
    keep_mux mux (Wav.build_prelude (channels_of mode) icy capacity)

module _ {P D : Type 0} (dsp : Dsp P D) where
  unfoldable pub current_rds_info : Session P D → StationInfo
  current_rds_info session =
      if not session.rds_enabled then station_info_init else dsp.get_station_info session.pipeline

  unfoldable pub has_complete_radiotext : Session P D → Bool
  has_complete_radiotext session =
      if not session.rds_enabled then false else dsp.has_complete_radiotext session.pipeline

  -- The text that is logged is kept, at the levels of debug and trace.
  unfoldable pub log_radiotext_update : Bool → Session P D → Session P D
  unfolding current_rds_info has_complete_radiotext
  log_radiotext_update is_debug session =
      let size = title_max_length + 1 in
      let radiotext = icy_copy_text (replicate size 0) size (current_rds_info session).radiotext in
      if not is_debug
      then session
      else if not (has_complete_radiotext session)
      then session
      else if (get_or radiotext 0 0 == 0) || strcmp_equal radiotext session.logged_radiotext
      then session
      else record session { logged_radiotext = strcpy session.logged_radiotext radiotext }

  unfoldable pub session_init : Seconds D → Session P D
  session_init time = record {
    stream_clock_started = false;
    rds_enabled = false;
    explicit_station_name = false;
    metadata_length = 0;
    audio_frames_queued = 0;
    stream_started_at = time.zero_seconds;
    requested_frequency_hz = 0;
    requested_station_name = [];
    logged_radiotext = replicate (title_max_length + 1) 0;
    mode = mono;
    container = wav;
    icy = record {
      enabled = false;
      audio_bytes_until_metadata = 0;
      metadata_length = 0;
      metadata_block = replicate 256 0;
      stable_title = replicate (title_max_length + 1) 0;
    };
    mpegts_mux = record {
      pat_continuity_counter = 0;
      pmt_continuity_counter = 0;
      audio_continuity_counter = 0;
      lpcm_header = 0;
      channels = 0;
      pts_90khz = 0;
      pts_numerator_remainder = 0;
    };
    pipeline = dsp.init;
    pcm_buffer = replicate (max_audio_frames_per_chunk * 2) 0;
  }

  unfoldable pub configure : Session P D → Settings D → Session P D
  configure session settings = record session {
    pipeline =
        dsp.configure session.pipeline settings.mode settings.volume_gain settings.deemphasis_tau_us
          settings.rds_enabled;
    rds_enabled = settings.rds_enabled;
    explicit_station_name = settings.explicit_station_name;
    requested_frequency_hz = settings.requested_frequency_hz;
    mode = settings.mode;
    container = settings.container;
    requested_station_name = take 128 settings.requested_station_name;
    icy = icy_metadata_init (settings.rds_enabled && settings.icy_metadata_enabled);
    mpegts_mux = mux_init (channels_of settings.mode);
  }

  -- `true` is a result of 0.
  abbrev pub store_update : Session P D → Bool × IcyMetadata → Bool × Session P D
  store_update session (true, icy) =
      (true, record session { icy = icy; metadata_length = icy.metadata_length })
  store_update session (false, icy) = (false, record session { icy = icy })

  unfoldable pub refresh_metadata : Session P D → Bool × Session P D
  unfolding current_rds_info has_complete_radiotext
  refresh_metadata session =
      if not session.icy.enabled
      then (true, session)
      else store_update session (
          icy_metadata_update session.icy (current_rds_info session).radiotext
            (has_complete_radiotext session))

  abbrev pub store_sound : Session P D → P × List ℕ → Session P D
  store_sound session sound = record session {
    pipeline = sound.0;
    pcm_buffer = overwrite sound.1 session.pcm_buffer;
  }

  abbrev pub process_sound : Session P D → StreamMode → Session P D
  process_sound session stereo = store_sound session (dsp.process_stereo session.pipeline)
  process_sound session mono = store_sound session (dsp.process_mono session.pipeline)

  -- A chunk has always `max_audio_frames_per_chunk` frames.
  unfoldable pub fill_pcm_chunk : Bool → Session P D → Bool × Session P D
  fill_pcm_chunk is_debug session =
      let processed = record session { pipeline = dsp.process_live_block session.pipeline } in
      let logged = log_radiotext_update is_debug processed in
      refresh_metadata (process_sound logged logged.mode)

  abbrev pub store_packed : Session P D → Option Packed → Option (Option (List ℕ) × Session P D)
  store_packed session none = none
  store_packed session (some packed) =
      some (packed.output, record session { mpegts_mux = packed.mux; icy = packed.icy })

  abbrev pub pack_filled : ℕ → Bool × Session P D → Option (Option (List ℕ) × Session P D)
  pack_filled capacity (false, session) = some (none, session)
  pack_filled capacity (true, session) = store_packed session (
      wrap_muxed session.icy capacity (
        body_of session.mode session.container session.mpegts_mux session.pcm_buffer
          max_audio_frames_per_chunk max_body_bytes))

  -- `none` when the rounds of a loop run out; the inner `none` is a result of -1.
  unfoldable pub fill_audio_chunk : Bool → ℕ → Session P D → Option (Option (List ℕ) × Session P D)
  fill_audio_chunk is_debug capacity session =
      pack_filled capacity (fill_pcm_chunk is_debug session)

module _ {P D : Type 0} where
  abbrev pub store_prelude :
      Session P D → Option (List ℕ × IcyMetadata × MuxState) → Option (List ℕ × Session P D)
  store_prelude session none = none
  store_prelude session (some built) =
      some (built.0, record session { icy = built.1; mpegts_mux = built.2 })

  unfoldable pub session_prelude : Session P D → ℕ → Option (List ℕ × Session P D)
  session_prelude session capacity =
      store_prelude session
        (prelude_of session.mode session.container session.icy session.mpegts_mux capacity)

  unfoldable pub start_clock : Session P D → D → Session P D
  start_clock session now =
      if not session.stream_clock_started
      then record session { stream_started_at = now; stream_clock_started = true }
      else session

  unfoldable pub compute_audio_delay : Seconds D → Session P D → D → D
  compute_audio_delay time session now =
      time.subtract
        (time.add session.stream_started_at
          (time.divide (time.of_ℕ session.audio_frames_queued) (time.of_ℕ 48000)))
        now

  unfoldable pub note_queued_frames : Session P D → ℕ → Session P D
  note_queued_frames session frame_count = record session {
    audio_frames_queued = u64 (session.audio_frames_queued + frame_count);
  }
