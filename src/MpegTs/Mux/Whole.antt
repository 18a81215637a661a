-- ===== src/MpegTs/Mux/Whole.antt =====
-- src/stream/mux_mpegts.c: what `stream_mux_mpegts_write_audio` puts out, as a receiver sees it.
use mpxcast.Prelude.{
  ℕ, ◌+◌, ◌*◌, ◌≤◌, ◌≡◌, refl, ap, ◌∙◌, true, Option, some, List, [], ◌∷◌, ◌++◌, arith, ltb, ◌==◌,
  if◌then◌else◌, length, take, length-append, length-take, if_both,
}
use mpxcast.MpegTs.{MuxState, packet_size, max_pes_bytes, ts_header, pts_bytes}
use mpxcast.MpegTs.Tables.{write_pat_packet, write_pmt_packet}
use mpxcast.MpegTs.Pes.{stereo_samples, mono_samples, pes_header, build_pes}
use mpxcast.MpegTs.Mux.{Muxed, settle, finish_loop, write_packets, write_audio}
use mpxcast.MpegTs.Mux.Payload.{packets_needed, demux, packet_loop-IsMuxed}

pub pat-size : (state : MuxState) → length (write_pat_packet state).0 ≡ packet_size
unfolding write_pat_packet ts_header
pat-size state = refl

pub pmt-size : (state : MuxState) → length (write_pmt_packet state).0 ≡ packet_size
unfolding write_pmt_packet ts_header
pmt-size state = refl

length-stereo_samples : (samples : List ℕ) → length (stereo_samples samples) ≡ length samples * 2
unfolding stereo_samples
length-stereo_samples [] = refl
length-stereo_samples (s ∷ samples) = omega (arith, length-stereo_samples samples)

length-mono_samples : (samples : List ℕ) → length (mono_samples samples) ≡ length samples * 4
unfolding mono_samples
length-mono_samples [] = refl
length-mono_samples (s ∷ samples) = omega (arith, length-mono_samples samples)

-- How many samples a call reads.
abbrev pub samples_read : MuxState → ℕ → ℕ
samples_read state frame_count = if state.channels == 2 then frame_count * 2 else frame_count

same_count :
    (state : MuxState) (frame_count : ℕ)
    → samples_read (write_pmt_packet (write_pat_packet state).1).1 frame_count
      ≡ samples_read state frame_count
unfolding write_pat_packet write_pmt_packet
same_count state frame_count = refl

pes_header-size : (state : MuxState) (n : ℕ) → length (pes_header state n) ≡ 18
unfolding pes_header pts_bytes
pes_header-size state n = refl

build_pes-size :
    (state : MuxState) (samples : List ℕ) (frame_count : ℕ)
    → frame_count ≤ 1147
    → samples_read state frame_count ≤ length samples
    → (pes : List ℕ) × (build_pes state samples frame_count max_pes_bytes ≡ some pes)
      × (length pes ≡ 18 + frame_count * 4)
unfolding build_pes
build_pes-size state samples frame_count small enough =
    let header = pes_header state (4 + frame_count * 4) in
    let header_size = pes_header-size state (4 + frame_count * 4) in
    if_both
      (λ (r : Option (List ℕ)).
        (pes : List ℕ) × (r ≡ some pes) × (length pes ≡ 18 + frame_count * 4))
      (ltb max_pes_bytes (14 + (4 + frame_count * 4))) _ _
      (λ large. absurd (ground (arith, large, small)))
      λ _.
        if_both
          (λ (r : Option (List ℕ)).
            (pes : List ℕ) × (r ≡ some pes) × (length pes ≡ 18 + frame_count * 4))
          (state.channels == 2) _ _
          (λ stereo.
            let read = take (frame_count * 2) samples in
            let count : frame_count * 2 ≤ length samples = ground (arith, stereo, enough) in
            (
              header ++ stereo_samples read,
              refl,
              omega (
                arith,
                length-append header (stereo_samples read),
                header_size,
                length-stereo_samples read,
                length-take (frame_count * 2) samples,
                count,
              ),
            ))
          (λ mono.
            let read = take frame_count samples in
            let count : frame_count ≤ length samples = ground (arith, mono, enough) in
            (
              header ++ mono_samples read,
              refl,
              omega (
                arith,
                length-append header (mono_samples read),
                header_size,
                length-mono_samples read,
                length-take frame_count samples,
                count,
              ),
            ))

-- The output is the two tables and then packets that carry the PES packet of the samples.
pub record IsTransport (state : MuxState) (samples : List ℕ) (frame_count capacity : ℕ)
    : Type 0 where
  pub pes : List ℕ
  pub count : ℕ
  pub few : count ≤ packets_needed true (18 + frame_count * 4)
  pub packets : List ℕ
  pub after : MuxState
  pub built :
      build_pes (write_pmt_packet (write_pat_packet state).1).1 samples frame_count max_pes_bytes
      ≡ some pes
  pub returned :
      write_audio state samples frame_count capacity
      ≡ some (record {
        output = some (
            ((write_pat_packet state).0 ++ (write_pmt_packet (write_pat_packet state).1).0)
            ++ packets);
        state = after;
      })
  pub size : length packets ≡ count * packet_size
  pub received : demux count packets ≡ pes

-- For at most 1147 frames, as many samples as the channels need, and room for the two tables and
-- the packets that the PES packet takes, the function returns an output: the two table packets and
-- then packets of 188 bytes, at most as many as the PES packet takes. The payloads that a receiver
-- takes from these, in order, are the PES packet that was built for the samples.
pub write_audio_received :
    (state : MuxState) (samples : List ℕ) (frame_count capacity : ℕ)
    → frame_count ≤ 1147
    → samples_read state frame_count ≤ length samples
    → (2 + packets_needed true (18 + frame_count * 4)) * packet_size ≤ capacity
    → IsTransport state samples frame_count capacity
unfolding write_audio
write_audio_received state samples frame_count capacity small enough fits =
    let (pes, built, size) =
      build_pes-size tabled samples frame_count small
        (omega (arith, enough, same_count state frame_count)) in
    let muxed = packet_loop-IsMuxed (length pes + 1) capacity tabled true pes tables (omega arith) (
      omega (
        arith,
        tables_size,
        fits,
        ap (packets_needed true) {x = length pes} {y = 18 + frame_count * 4} size,
      )) in
    record {
      pes = pes;
      count = muxed.count;
      few = omega (
        arith,
        muxed.few,
        ap (packets_needed true) {x = length pes} {y = 18 + frame_count * 4} size,
      );
      packets = muxed.packets;
      after = settle frame_count (some (tables ++ muxed.packets)) muxed.state;
      built = built;
      returned =
          if_both
            (λ (r : Option Muxed).
              r
              ≡ some (record {
                output = some (tables ++ muxed.packets);
                state = settle frame_count (some (tables ++ muxed.packets)) muxed.state;
              }))
            (ltb capacity (2 * packet_size)) _ _ (λ full. absurd (ground (arith, full, fits)))
            (λ _.
              ap (write_packets frame_count capacity tabled tables) built
              ∙ ap (finish_loop frame_count) muxed.returned);
      size = muxed.size;
      received = muxed.received;
    }
  where
    pat : List ℕ × MuxState
    pat = write_pat_packet state

    pmt : List ℕ × MuxState
    pmt = write_pmt_packet (write_pat_packet state).1

    tabled : MuxState
    tabled = (write_pmt_packet (write_pat_packet state).1).1

    tables : List ℕ
    tables = (write_pat_packet state).0 ++ (write_pmt_packet (write_pat_packet state).1).0

    tables_size : length tables ≡ 2 * packet_size
    tables_size = omega (
      arith,
      length-append (write_pat_packet state).0 (write_pmt_packet (write_pat_packet state).1).0,
      pat-size state,
      pmt-size (write_pat_packet state).1,
    )
