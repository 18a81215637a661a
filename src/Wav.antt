-- ===== src/Wav.antt =====
-- src/audio/wav.c, stream/mux_wav.c and their headers: the WAV stream.
mod Runs
use mpxcast.Prelude.{
  ℕ, ◌+◌, ◌*◌, ◌/◌, ◌%◌, ◌^◌, ◌≤◌, ◌<◌, ◌≡◌, refl, true, Option, none, some, List, [], ◌∷◌, ◌++◌,
  arith, ltb, if◌then◌else◌, length, get_or, if_both, u8, u16, u32, u64, ◌>>>◌,
}
use mpxcast.Icy.{IcyMetadata, metaint, icy_bytes_until_next_metadata}

-- WAV_HEADER_SIZE
abbrev pub wav_header_size : ℕ
wav_header_size = 44

abbrev pub u16le : ℕ → List ℕ
u16le value = u8 (value % 2 ^ 8) ∷ u8 ((value >>> 8) % 2 ^ 8) ∷ []

abbrev pub u32le : ℕ → List ℕ
u32le value =
    u8 (value % 2 ^ 8)
    ∷ u8 ((value >>> 8) % 2 ^ 8)
    ∷ u8 ((value >>> 16) % 2 ^ 8)
    ∷ u8 ((value >>> 24) % 2 ^ 8)
    ∷ []

-- The header of a stream, whose sizes are not known.
unfoldable pub stream_header : ℕ → ℕ → ℕ → List ℕ
stream_header channels sample_rate bits_per_sample =
    let block_align = u16 (channels * (bits_per_sample / 8)) in
    let byte_rate = u32 (sample_rate * block_align) in
    (82 ∷ 73 ∷ 70 ∷ 70 ∷ [])
    ++ (u32le 0
        ++ ((87 ∷ 65 ∷ 86 ∷ 69 ∷ 102 ∷ 109 ∷ 116 ∷ 32 ∷ [])
            ++ (u32le 16
                ++ (u16le 1
                    ++ (u16le channels
                        ++ (u32le sample_rate
                            ++ (u32le byte_rate
                                ++ (u16le block_align
                                    ++ (u16le bits_per_sample
                                        ++ ((100 ∷ 97 ∷ 116 ∷ 97 ∷ []) ++ u32le 0))))))))))

unfoldable pub build_prelude : ℕ → IcyMetadata → ℕ → Option (List ℕ × IcyMetadata)
build_prelude channels icy capacity =
    if ltb capacity wav_header_size
    then none
    else some (
      stream_header channels 48000 16,
      record icy {
        audio_bytes_until_metadata =
            if icy.enabled
            then icy_bytes_until_next_metadata wav_header_size
            else icy.audio_bytes_until_metadata;
      },
    )

abbrev pub body_size : ℕ → ℕ → ℕ
body_size channels frame_count = u64 (frame_count * channels * 2)

-- A player's reading of little-endian fields.
abbrev pub read_u16 : List ℕ → ℕ → ℕ
read_u16 bytes i = get_or bytes i 0 + get_or bytes (i + 1) 0 * 2 ^ 8

abbrev pub read_u32 : List ℕ → ℕ → ℕ
read_u32 bytes i = read_u16 bytes i + read_u16 bytes (i + 2) * 2 ^ 16

-- What a player reads from a header for so many channels of 48 kHz 16-bit samples.
pub record IsWavHeader (channels : ℕ) (bytes : List ℕ) : Type 0 where
  pub size : length bytes ≡ wav_header_size
  pub channels_read : read_u16 bytes 22 ≡ channels
  pub rate_read : read_u32 bytes 24 ≡ 48000
  pub byte_rate_read : read_u32 bytes 28 ≡ body_size channels 48000
  pub align_read : read_u16 bytes 32 ≡ body_size channels 1
  pub bits_read : read_u16 bytes 34 ≡ 16

-- For less than 2 ^ 14 channels and a capacity of at least 44, the prelude is 44 bytes from which
-- a player reads the channels, 48000 Hz, 16 bits, the size of a second of samples and the size of
-- a frame; with titles enabled, the audio before the first title and the header make one interval.
pub build_prelude_read :
    (channels capacity : ℕ) (icy : IcyMetadata)
    → channels < 2 ^ 14
    → wav_header_size ≤ capacity
    → (bytes : List ℕ) × (after : IcyMetadata) × (build_prelude channels icy capacity
        ≡ some (bytes, after))
      × IsWavHeader channels bytes
      × (icy.enabled ≡ true → after.audio_bytes_until_metadata + length bytes ≡ metaint)
unfolding build_prelude stream_header icy_bytes_until_next_metadata
build_prelude_read channels capacity icy small fits = (
  stream_header channels 48000 16,
  record icy {
    audio_bytes_until_metadata =
        if icy.enabled
        then icy_bytes_until_next_metadata wav_header_size
        else icy.audio_bytes_until_metadata;
  },
  if_both
      (λ (r : Option (List ℕ × IcyMetadata)).
        r
        ≡ some (
          stream_header channels 48000 16,
          record icy {
            audio_bytes_until_metadata =
                if icy.enabled
                then icy_bytes_until_next_metadata wav_header_size
                else icy.audio_bytes_until_metadata;
          },
        ))
      (ltb capacity wav_header_size) _ _ (λ full. absurd (ground (arith, full, fits))) (λ _. refl),
  record {
    size = refl;
    channels_read = omega arith;
    rate_read = refl;
    byte_rate_read = omega arith;
    align_read = omega arith;
    bits_read = refl;
  },
  λ on.
      if_both (λ (n : ℕ). n + 44 ≡ metaint) icy.enabled _ _ (λ _. refl)
        (λ off. absurd (ground (arith, on, off))),
)
