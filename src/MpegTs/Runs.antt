-- ===== src/MpegTs/Runs.antt =====
-- Concrete runs of src/stream/mux_mpegts.c, and the theorems at concrete inputs.
use mpxcast.Prelude.{ℕ, ◌≤◌, ◌≡◌, refl, List, [], ◌∷◌, ◌++◌, arith, ◌==◌, if◌then◌else◌, length}
use mpxcast.MpegTs.{MuxState, mux_init}
use mpxcast.MpegTs.Crc.{crc32, crc_loop, crc_bits, crc_bit, crc_bytes, crc32-check}
use mpxcast.MpegTs.Tables.{
  checked, pat_section, pmt_section, read_section, write_pat_packet, write_pmt_packet,
}
use mpxcast.MpegTs.Clock.{advance_all, advance_pts_total, tables_checked}
use mpxcast.MpegTs.Mux.Whole.{IsTransport, write_audio_received}

abbrev start : MuxState
start = mux_init 2

lpcm_header_of_two : start.lpcm_header ≡ 0x3140
unfolding mux_init
lpcm_header_of_two = refl

-- The checksum of the digits 1 to 9 is the check value of CRC-32/MPEG-2.
check_value : crc32 (0x31 ∷ 0x32 ∷ 0x33 ∷ 0x34 ∷ 0x35 ∷ 0x36 ∷ 0x37 ∷ 0x38 ∷ 0x39 ∷ []) ≡ 0x0376e6e7
unfolding crc32 crc_loop crc_bits crc_bit
check_value = refl

crc32-check_example : crc32 (pat_section ++ crc_bytes (crc32 pat_section)) ≡ 0
crc32-check_example = crc32-check pat_section

tables_checked_example :
    (read_section (write_pat_packet start).0 ≡ checked pat_section)
    × (read_section (write_pmt_packet start).0 ≡ checked pmt_section)
    × (crc32 (read_section (write_pat_packet start).0) ≡ 0)
    × (crc32 (read_section (write_pmt_packet start).0) ≡ 0)
tables_checked_example = tables_checked start

-- 1024 frames and 7 frames are 1933 ticks of 90 kHz and a part of a tick.
advance_pts_total_example :
    let state = advance_all (mux_init 2) (1024 ∷ 7 ∷ []) in
    (state.pts_90khz ≡ 1933) × (state.pts_numerator_remainder ≡ 6000)
advance_pts_total_example = advance_pts_total 2 (1024 ∷ 7 ∷ []) (omega arith, (omega arith, tt))

abbrev samples : List ℕ
samples = 1 ∷ 0xffff ∷ 0x1234 ∷ 0 ∷ []

two_frames : (if start.channels == 2 then 4 else 2) ≤ length samples
unfolding mux_init
two_frames = omega arith

write_audio_received_example : IsTransport start samples 2 1000
write_audio_received_example =
    write_audio_received start samples 2 1000 (omega arith) two_frames (omega arith)
