-- ===== src/MpegTs.antt =====
-- src/stream/mux_mpegts.c and mux_mpegts.h: PCM audio in an MPEG transport stream. This file has
-- the state and the fields of the packets; tables, PES and packets are in the children.
pub mod Crc
pub mod Tables
pub mod Pes
pub mod Mux
pub mod Clock
mod Runs
use mpxcast.Prelude.{
  ℕ, ◌+◌, ◌/◌, ◌%◌, ◌^◌, ◌<◌, bit_or, Bool, List, [], ◌∷◌, ◌==◌, if◌then◌else◌, u8, u16, ◌>>>◌,
  ◌<<<◌,
}

-- STREAM_MUX_MPEGTS_PACKET_SIZE and the identifiers of the streams
abbrev pub packet_size : ℕ
packet_size = 188

abbrev pub max_pes_bytes : ℕ
max_pes_bytes = 4608

abbrev pub pmt_pid : ℕ
pmt_pid = 0x0100

abbrev pub audio_pid : ℕ
audio_pid = 0x1100

-- `struct stream_mux_mpegts_state`
pub record MuxState : Type 0 where
  pub pat_continuity_counter : ℕ
  pub pmt_continuity_counter : ℕ
  pub audio_continuity_counter : ℕ
  pub lpcm_header : ℕ
  pub channels : ℕ
  pub pts_90khz : ℕ
  pub pts_numerator_remainder : ℕ

unfoldable pub mux_init : ℕ → MuxState
mux_init channels = record {
  pat_continuity_counter = 0;
  pmt_continuity_counter = 0;
  audio_continuity_counter = 0;
  lpcm_header = u16 (bit_or ((bit_or ((if channels == 2 then 3 else 1) <<< 4) 1) <<< 8) (1 <<< 6));
  channels = channels;
  pts_90khz = 0;
  pts_numerator_remainder = 0;
}

-- `counter++` on a `uint8_t`, and `counter &= 0x0f`.
abbrev pub next_counter : ℕ → ℕ
next_counter counter = u8 (counter + 1) % 2 ^ 4

-- The four bytes of the packet header.
unfoldable pub ts_header : Bool → ℕ → ℕ → ℕ → List ℕ
ts_header payload_unit_start pid adaptation_field_control continuity_counter =
    0x47
    ∷ u8 (bit_or (if payload_unit_start then 0x40 else 0) ((pid >>> 8) % 2 ^ 5))
    ∷ u8 (pid % 2 ^ 8)
    ∷ u8 (bit_or ((adaptation_field_control % 2 ^ 2) <<< 4) (continuity_counter % 2 ^ 4))
    ∷ []

unfoldable pub pts_bytes : ℕ → List ℕ
pts_bytes pts_90khz =
    let pts = pts_90khz % 2 ^ 33 in
    u8 (bit_or 0x21 (((pts >>> 30) % 2 ^ 3) <<< 1))
    ∷ u8 (pts >>> 22)
    ∷ u8 (bit_or (((pts >>> 15) % 2 ^ 7) <<< 1) 1)
    ∷ u8 (pts >>> 7)
    ∷ u8 (bit_or ((pts % 2 ^ 7) <<< 1) 1)
    ∷ []

unfoldable pub pcr_bytes : ℕ → List ℕ
pcr_bytes pcr_27mhz =
    let base = pcr_27mhz / 300 in
    let extension = u16 (pcr_27mhz % 300) in
    u8 (base >>> 25)
    ∷ u8 (base >>> 17)
    ∷ u8 (base >>> 9)
    ∷ u8 (base >>> 1)
    ∷ u8 (bit_or (bit_or ((base % 2) <<< 7) 0x7e) (extension >>> 8))
    ∷ u8 (extension % 2 ^ 8)
    ∷ []
