-- ===== src/MpegTs/Clock.antt =====
-- src/stream/mux_mpegts.c: the presentation clock does not drift, and the tables are well formed.
use mpxcast.Prelude.{ℕ, ◌+◌, ◌*◌, ◌/◌, ◌%◌, ◌^◌, ◌≤◌, ◌≡◌, refl, subst, List, [], ◌∷◌, arith, All}
use mpxcast.MpegTs.{MuxState, mux_init, ts_header}
use mpxcast.MpegTs.Crc.{crc32, crc32-check}
use mpxcast.MpegTs.Tables.{
  checked, pat_section, pmt_section, read_section, write_pat_packet, write_pmt_packet,
}
use mpxcast.MpegTs.Pes.{advance_pts}

-- The state behind chunks of so many frames.
abbrev pub advance_all : MuxState → List ℕ → MuxState
advance_all state [] = state
advance_all state (frame_count ∷ later) = advance_all (advance_pts state frame_count) later

abbrev pub total : List ℕ → ℕ
total [] = 0
total (frame_count ∷ later) = frame_count + total later

-- A state whose clock has run for `n` frames.
abbrev IsAfter : ℕ → MuxState → Type 0
IsAfter n state =
    (state.pts_90khz ≡ (n * 90000 / 48000) % 2 ^ 64)
    × (state.pts_numerator_remainder ≡ n * 90000 % 48000)

advance_pts-IsAfter :
    (n : ℕ) (state : MuxState) (frame_count : ℕ)
    → frame_count ≤ 2 ^ 46
    → IsAfter n state
    → IsAfter (n + frame_count) (advance_pts state frame_count)
unfolding advance_pts
advance_pts-IsAfter n state frame_count few at =
    (omega (arith, at.0, at.1, few), omega (arith, at.1, few))

advance_all-IsAfter :
    (n : ℕ) (state : MuxState) (frame_counts : List ℕ)
    → All (λ frame_count. frame_count ≤ 2 ^ 46) frame_counts
    → IsAfter n state
    → IsAfter (n + total frame_counts) (advance_all state frame_counts)
advance_all-IsAfter n state [] few at = subst (λ k. IsAfter k state) {x = n} (omega arith) at
advance_all-IsAfter n state (frame_count ∷ later) few at =
    subst (λ k. IsAfter k (advance_all (advance_pts state frame_count) later))
      {x = n + frame_count + total later} (omega arith)
      (advance_all-IsAfter (n + frame_count) (advance_pts state frame_count) later few.1
        (advance_pts-IsAfter n state frame_count few.0 at))

-- From a new mux, after any chunks of at most 2 ^ 46 frames each, the clock shows the whole ticks
-- of 90 kHz in all their frames at 48 kHz together, modulo 2 ^ 64, and the remainder is the rest:
-- no fraction of a tick is ever lost.
pub advance_pts_total :
    (channels : ℕ) (frame_counts : List ℕ)
    → All (λ frame_count. frame_count ≤ 2 ^ 46) frame_counts
    → let state = advance_all (mux_init channels) frame_counts in
      (state.pts_90khz ≡ (total frame_counts * 90000 / 48000) % 2 ^ 64)
      × (state.pts_numerator_remainder ≡ total frame_counts * 90000 % 48000)
unfolding mux_init
advance_pts_total channels frame_counts few =
    subst (λ n. IsAfter n (advance_all (mux_init channels) frame_counts))
      {x = 0 + total frame_counts} (omega arith)
      (advance_all-IsAfter 0 (mux_init channels) frame_counts few (refl, refl))

-- From every state, the section that a receiver finds in the PAT packet and in the PMT packet, by
-- the length that it announces, is the one meant, with its checksum, and the checksum over it is
-- 0.
pub tables_checked :
    (state : MuxState)
    → (read_section (write_pat_packet state).0 ≡ checked pat_section)
      × (read_section (write_pmt_packet state).0 ≡ checked pmt_section)
      × (crc32 (read_section (write_pat_packet state).0) ≡ 0)
      × (crc32 (read_section (write_pmt_packet state).0) ≡ 0)
unfolding write_pat_packet write_pmt_packet ts_header
tables_checked state = (refl, refl, crc32-check pat_section, crc32-check pmt_section)
