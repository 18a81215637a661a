-- ===== src/Wav/Runs.antt =====
-- The theorem on src/stream/mux_wav.c at a concrete input.
use mpxcast.Prelude.{ℕ, ◌+◌, ◌≡◌, true, some, List, arith, length}
use mpxcast.Icy.{IcyMetadata, metaint, icy_metadata_init}
use mpxcast.Wav.{IsWavHeader, build_prelude, build_prelude_read}

build_prelude_read_example :
    (bytes : List ℕ) × (after : IcyMetadata) × (build_prelude 2 (icy_metadata_init true) 64
      ≡ some (bytes, after))
    × IsWavHeader 2 bytes
    × ((icy_metadata_init true).enabled ≡ true
        → after.audio_bytes_until_metadata + length bytes ≡ metaint)
build_prelude_read_example =
    build_prelude_read 2 64 (icy_metadata_init true) (omega arith) (omega arith)
