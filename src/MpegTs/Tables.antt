-- ===== src/MpegTs/Tables.antt =====
-- src/stream/mux_mpegts.c: the packets of the program tables, PAT and PMT. `packet` is the part
-- of the buffer that the function fills: it returns the packet.
use mpxcast.Prelude.{
  ℕ, ◌+◌, ◌*◌, ◌%◌, ◌^◌, bit_or, true, List, [], ◌∷◌, ◌++◌, length, get_or, take, drop, replicate,
  overwrite, u8, ◌>>>◌,
}
use mpxcast.MpegTs.{MuxState, packet_size, pmt_pid, audio_pid, next_counter, ts_header}
use mpxcast.MpegTs.Crc.{crc32, crc_bytes}

-- A section behind a header and a pointer field, in a packet that was set to 0xff.
abbrev pub section_packet : List ℕ → List ℕ → List ℕ
section_packet header section = overwrite (header ++ (0 ∷ section)) (replicate packet_size 0xff)

-- A section with its checksum.
abbrev pub checked : List ℕ → List ℕ
checked section = section ++ crc_bytes (crc32 section)

abbrev pub pat_section : List ℕ
pat_section =
    0x00
    ∷ 0xb0
    ∷ 0x0d
    ∷ 0x00
    ∷ 1
    ∷ 0xc1
    ∷ 0x00
    ∷ 0x00
    ∷ 0x00
    ∷ 1
    ∷ u8 (bit_or 0xe0 ((pmt_pid >>> 8) % 2 ^ 5))
    ∷ u8 (pmt_pid % 2 ^ 8)
    ∷ []

-- The last byte of the array is an octet 0xfc as well.
abbrev pub program_descriptors : List ℕ
program_descriptors = 0x05 ∷ 0x04 ∷ 72 ∷ 68 ∷ 77 ∷ 86 ∷ 0x88 ∷ 0x04 ∷ 0x0f ∷ 0xff ∷ 0xfc ∷ 0xfc ∷ []

abbrev pub pid_bytes : List ℕ
pid_bytes = u8 (bit_or 0xe0 ((audio_pid >>> 8) % 2 ^ 5)) ∷ u8 (audio_pid % 2 ^ 8) ∷ []

abbrev pub pmt_section : List ℕ
pmt_section =
    (0x02 ∷ 0xb0 ∷ 0x1e ∷ 0x00 ∷ 1 ∷ 0xc1 ∷ 0x00 ∷ 0x00 ∷ [])
    ++ (pid_bytes
        ++ (0xf0
            ∷ length program_descriptors
            ∷ (program_descriptors ++ (0x80 ∷ (pid_bytes ++ (0xf0 ∷ 0x00 ∷ []))))))

unfoldable pub write_pat_packet : MuxState → List ℕ × MuxState
unfolding ts_header
write_pat_packet state = (
  section_packet (ts_header true 0x0000 1 state.pat_continuity_counter) (checked pat_section),
  record state { pat_continuity_counter = next_counter state.pat_continuity_counter },
)

unfoldable pub write_pmt_packet : MuxState → List ℕ × MuxState
unfolding ts_header
write_pmt_packet state = (
  section_packet (ts_header true pmt_pid 1 state.pmt_continuity_counter) (checked pmt_section),
  record state { pmt_continuity_counter = next_counter state.pmt_continuity_counter },
)

-- The section length that a section announces counts the bytes behind its field.
abbrev pub section_length : List ℕ → ℕ
section_length section = get_or section 1 0 % 16 * 2 ^ 8 + get_or section 2 0

-- A receiver's reading of a table packet: the section that starts behind the pointer field, as
-- long as it says.
abbrev pub read_section : List ℕ → List ℕ
read_section packet = let rest = drop 5 packet in take (3 + section_length rest) rest
