-- ===== src/Session/Runs.antt =====
-- Concrete runs of src/stream/session.c, and the theorems at concrete inputs. Signal processing
-- without a state gives silence, and time is counted in whole seconds.
use mpxcast.Prelude.{ℕ, ◌+◌, ◌-◌, ◌/◌, ◌≡◌, refl, true, [], ◌∷◌, arith, ◌==◌, replicate}
use mpxcast.CString.{c_string}
use mpxcast.Parser.{station_info_init}
use mpxcast.Icy.Update.{icy_metadata_init-IsKept}
use mpxcast.Http.{stereo, mpegts}
use mpxcast.Session.{
  Dsp, Seconds, Session, Settings, session_init, configure, fill_pcm_chunk, sample_bytes,
}
use mpxcast.Session.Titles.{IsShort, IsTitled, fill_pcm_chunk-IsTitled}

-- The radiotext is "Hi".
abbrev pub silent_dsp : Dsp Unit ℕ
silent_dsp = record {
  init = tt;
  configure = λ p mode volume tau rds. p;
  process_live_block = λ p. p;
  process_mono = λ p. (p, replicate 1024 0);
  process_stereo = λ p. (p, replicate 2048 0);
  get_station_info = λ p. record station_info_init { radiotext = 72 ∷ 105 ∷ 0 ∷ [] };
  has_complete_radiotext = λ p. true;
}

abbrev pub whole_seconds : Seconds ℕ
whole_seconds = record {
  zero_seconds = 0;
  add = λ x y. x + y;
  subtract = λ x y. x - y;
  divide = λ x y. x / y;
  of_ℕ = λ n. n;
  is_due = λ n. n == 0;
}

pub silent-IsShort : IsShort silent_dsp
unfolding c_string
silent-IsShort p = omega arith

abbrev pub stereo_settings : Settings ℕ
stereo_settings = record {
  requested_frequency_hz = 98800000;
  volume_gain = 1;
  deemphasis_tau_us = 50;
  mode = stereo;
  container = mpegts;
  requested_station_name = 72 ∷ 105 ∷ [];
  explicit_station_name = true;
  rds_enabled = true;
  icy_metadata_enabled = true;
}

abbrev pub stereo_session : Session Unit ℕ
stereo_session = configure silent_dsp (session_init silent_dsp whole_seconds) stereo_settings

-- 258 and 65535
little_endian : sample_bytes (258 ∷ 65535 ∷ []) ≡ 2 ∷ 1 ∷ 255 ∷ 255 ∷ []
unfolding sample_bytes
little_endian = refl

fill_pcm_chunk-IsTitled_example :
    ((fill_pcm_chunk silent_dsp true stereo_session).0 ≡ true)
    × IsTitled (fill_pcm_chunk silent_dsp true stereo_session).1.icy
fill_pcm_chunk-IsTitled_example =
    fill_pcm_chunk-IsTitled silent_dsp silent-IsShort true stereo_session
      (unfold configure in icy_metadata_init-IsKept true)
