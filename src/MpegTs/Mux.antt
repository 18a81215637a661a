-- ===== src/MpegTs/Mux.antt =====
-- src/stream/mux_mpegts.c: `stream_mux_mpegts_write_audio` and the prelude. A packet that the
-- loop puts out is its four parts; the buffer is the list of what was written.
pub mod Payload
pub mod Whole
use mpxcast.Prelude.{
  ℕ, zero, suc, ◌+◌, ◌-◌, ◌*◌, min, Bool, true, false, Option, none, some, List, [], ◌∷◌, ◌++◌, ltb,
  ◌==◌, if◌then◌else◌, length, take, drop, replicate, u8, u64,
}
use mpxcast.Icy.{IcyMetadata, icy_bytes_until_next_metadata}
use mpxcast.MpegTs.{
  MuxState, packet_size, max_pes_bytes, audio_pid, next_counter, ts_header, pcr_bytes,
}
use mpxcast.MpegTs.Tables.{write_pat_packet, write_pmt_packet}
use mpxcast.MpegTs.Pes.{build_pes, advance_pts}

-- The first packet, with the clock in its adaptation field, which grows where little is left.
unfoldable pub first_packet : MuxState → List ℕ → List ℕ
first_packet state remaining =
    let adaptation_length = 7 + ((packet_size - 4 - 1 - 7) - length remaining) in
    let payload_capacity = min (length remaining) (packet_size - 4 - 1 - 7) in
    ts_header true audio_pid 3 state.audio_continuity_counter
    ++ (u8 adaptation_length
        ∷ 0x50
        ∷ (pcr_bytes (u64 (state.pts_90khz * 300))
            ++ (replicate (adaptation_length - 7) 0xff ++ take payload_capacity remaining)))

-- The stuffing that fills a packet before a payload that is shorter than it.
unfoldable pub stuffing : ℕ → List ℕ
stuffing adaptation_total =
    u8 (adaptation_total - 1)
    ∷ (if ltb 1 adaptation_total then 0x00 ∷ replicate (adaptation_total - 2) 0xff else [])

unfoldable pub later_packet : MuxState → List ℕ → List ℕ
later_packet state remaining =
    if ltb (length remaining) (packet_size - 4)
    then ts_header false audio_pid 3 state.audio_continuity_counter
      ++ (stuffing (packet_size - 4 - length remaining) ++ remaining)
    else ts_header false audio_pid 1 state.audio_continuity_counter
      ++ take (packet_size - 4) remaining

-- How much of the PES packet a packet takes.
abbrev pub payload_size : Bool → List ℕ → ℕ
payload_size true remaining = min (length remaining) (packet_size - 4 - 1 - 7)
payload_size false remaining = min (length remaining) (packet_size - 4)

-- What the function returns for the rest of the PES packet: the packets, and the state.
pub record Muxed : Type 0 where
  pub output : Option (List ℕ)
  pub state : MuxState

-- The loop, in `fuel` rounds; `none` when they run out.
unfoldable pub packet_loop : ℕ → ℕ → MuxState → Bool → List ℕ → List ℕ → Option Muxed
packet_loop zero capacity state first remaining output = none
packet_loop (suc fuel) capacity state first remaining output =
    let packet = if first then first_packet state remaining else later_packet state remaining in
    let next = record state {
      audio_continuity_counter = next_counter state.audio_continuity_counter;
    } in
    let rest =
      packet_loop fuel capacity next false (drop (payload_size first remaining) remaining)
        (output ++ packet) in
    if length remaining == 0
    then some (record { output = some output; state = state })
    else if ltb capacity (length output + packet_size)
    then some (record { output = none; state = state })
    else rest

abbrev pub settle : ℕ → Option (List ℕ) → MuxState → MuxState
settle frame_count none state = state
settle frame_count (some output) state = advance_pts state frame_count

-- After the loop the clock moves on, unless the buffer was too small.
abbrev pub finish : ℕ → Muxed → Muxed
finish frame_count muxed = record {
  output = muxed.output;
  state = settle frame_count muxed.output muxed.state;
}

abbrev pub finish_loop : ℕ → Option Muxed → Option Muxed
finish_loop frame_count none = none
finish_loop frame_count (some muxed) = some (finish frame_count muxed)

-- The loop over the PES packet, if one was built, behind the tables. Each round takes a byte.
abbrev pub write_packets : ℕ → ℕ → MuxState → List ℕ → Option (List ℕ) → Option Muxed
write_packets frame_count capacity state tables none =
    some (record { output = none; state = state })
write_packets frame_count capacity state tables (some pes) =
    finish_loop frame_count (packet_loop (length pes + 1) capacity state true pes tables)

unfoldable pub write_audio : MuxState → List ℕ → ℕ → ℕ → Option Muxed
write_audio state samples frame_count capacity =
    let pat = write_pat_packet state in
    let pmt = write_pmt_packet pat.1 in
    if ltb capacity (2 * packet_size)
    then some (record { output = none; state = state })
    else write_packets frame_count capacity pmt.1 (pat.0 ++ pmt.0)
        (build_pes pmt.1 samples frame_count max_pes_bytes)

-- The tables at the start of a stream; with titles, they count as part of the body.
unfoldable pub build_prelude : IcyMetadata → MuxState → ℕ → Option (List ℕ × IcyMetadata × MuxState)
build_prelude icy state capacity =
    let pat = write_pat_packet state in
    let pmt = write_pmt_packet pat.1 in
    if ltb capacity (2 * packet_size)
    then none
    else some (
      pat.0 ++ pmt.0,
      record icy {
        audio_bytes_until_metadata =
            if icy.enabled
            then icy_bytes_until_next_metadata (2 * packet_size)
            else icy.audio_bytes_until_metadata;
      },
      pmt.1,
    )
