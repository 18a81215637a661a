-- ===== src/MpegTs/Pes.antt =====
-- src/stream/mux_mpegts.c: the PES packet of a block of samples, and the clock.
use mpxcast.Prelude.{
  ℕ, ◌+◌, ◌-◌, ◌*◌, ◌/◌, ◌%◌, ◌^◌, Option, none, some, List, [], ◌∷◌, ◌++◌, ltb, ◌==◌,
  if◌then◌else◌, take, u8, u16, u64, ◌>>>◌,
}
use mpxcast.MpegTs.{MuxState, pts_bytes}

-- The two bytes of a number, the high one first.
abbrev pub big_endian : ℕ → List ℕ
big_endian n = u8 (n >>> 8) ∷ u8 (n % 2 ^ 8) ∷ []

-- The loop over the samples of both channels; a sample is the cast of an `int16_t` to `uint16_t`.
unfoldable pub stereo_samples : List ℕ → List ℕ
stereo_samples [] = []
stereo_samples (sample ∷ samples) = big_endian sample ++ stereo_samples samples

-- The loop over the samples of one channel, each with a silent one.
unfoldable pub mono_samples : List ℕ → List ℕ
mono_samples [] = []
mono_samples (sample ∷ samples) = big_endian sample ++ (0x00 ∷ 0x00 ∷ mono_samples samples)

unfoldable pub pes_header : MuxState → ℕ → List ℕ
pes_header state lpcm_payload_bytes =
    (0x00 ∷ 0x00 ∷ 0x01 ∷ 0xbd ∷ [])
    ++ (big_endian (u16 (lpcm_payload_bytes + 8))
        ++ ((0x80 ∷ 0x80 ∷ 0x05 ∷ [])
            ++ (pts_bytes state.pts_90khz
                ++ (u8 ((lpcm_payload_bytes - 4) >>> 8)
                    ∷ u8 ((lpcm_payload_bytes - 4) % 2 ^ 8)
                    ∷ big_endian state.lpcm_header))))

-- `samples` are at least the ones that the loops read.
unfoldable pub build_pes : MuxState → List ℕ → ℕ → ℕ → Option (List ℕ)
build_pes state samples frame_count capacity =
    let lpcm_payload_bytes = 4 + frame_count * 4 in
    let header = pes_header state lpcm_payload_bytes in
    if ltb capacity (14 + lpcm_payload_bytes)
    then none
    else if state.channels == 2
    then some (header ++ stereo_samples (take (frame_count * 2) samples))
    else some (header ++ mono_samples (take frame_count samples))

unfoldable pub advance_pts : MuxState → ℕ → MuxState
advance_pts state frame_count =
    let numerator = u64 (u64 (frame_count * 90000) + state.pts_numerator_remainder) in
    record state {
      pts_90khz = u64 (state.pts_90khz + numerator / 48000);
      pts_numerator_remainder = numerator % 48000;
    }
