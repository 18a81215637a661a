-- ===== src/MpegTs/Mux/Payload.antt =====
-- src/stream/mux_mpegts.c: a receiver takes the PES packet out of the transport packets again.
use mpxcast.Prelude.{
  ℕ, zero, suc, ◌+◌, ◌-◌, ◌*◌, ◌/◌, ◌%◌, ◌^◌, ◌≤◌, ◌<◌, ◌≡◌, refl, sym, ap, ap₂, ◌∙◌, subst, Bool,
  true, false, Option, some, List, [], ◌∷◌, ◌++◌, append-nil, append_assoc, arith, ltb, ◌==◌,
  if◌then◌else◌, ltb→lt, length, get_or, take, drop, replicate, length-append, take-append-drop,
  length-take, length-drop, length-replicate, take-append_exact, drop-append_exact, take_all,
  if_both, u8, u64,
}
use mpxcast.Bits.Or.{or_fields}
use mpxcast.MpegTs.{MuxState, packet_size, audio_pid, next_counter, ts_header, pcr_bytes}
use mpxcast.MpegTs.Mux.{first_packet, stuffing, later_packet, payload_size, Muxed, packet_loop}

-- What a receiver takes for the payload: what stands behind the header and, if the packet
-- announces one, its adaptation field.
abbrev pub payload : List ℕ → List ℕ
payload packet =
    if get_or packet 3 0 / 16 % 4 == 1 then drop 4 packet else drop (5 + get_or packet 4 0) packet

-- The payloads of `n` packets.
unfoldable pub demux : ℕ → List ℕ → List ℕ
demux zero bytes = []
demux (suc n) bytes = payload (take packet_size bytes) ++ demux n (drop packet_size bytes)

ts_header_control :
    (start : Bool) (pid control counter : ℕ)
    → control < 4
    → get_or (ts_header start pid control counter) 3 0 ≡ control * 16 + counter % 16
unfolding ts_header
ts_header_control start pid control counter h =
    omega (arith, or_fields 4 (control % 2 ^ 2) (counter % 2 ^ 4) (omega arith))

-- A packet of the right size that starts with the sync byte and carries the bytes.
record Carries (packet bytes : List ℕ) : Type 0 where
  size : length packet ≡ packet_size
  sync : get_or packet 0 0 ≡ 0x47
  carried : payload packet ≡ bytes

with_field :
    (start : Bool) (counter length_byte : ℕ) (field bytes : List ℕ)
    → length_byte ≡ length field
    → 5 + length field + length bytes ≡ packet_size
    → Carries (ts_header start audio_pid 3 counter ++ (length_byte ∷ (field ++ bytes))) bytes
with_field start counter length_byte field bytes e size = record {
  size = unfold ts_header in omega (arith, size, length-append field bytes);
  sync = unfold ts_header in refl;
  carried =
      unfold ts_header in
      if_both (λ (t : List ℕ). t ≡ bytes)
        (get_or (ts_header start audio_pid 3 counter) 3 0 / 16 % 4 == 1) _ _
        (λ plain.
          absurd (ground (arith, plain, ts_header_control start audio_pid 3 counter (omega arith))))
        (λ _.
          drop-append_exact (5 + length_byte)
            (ts_header start audio_pid 3 counter ++ (length_byte ∷ field)) bytes
            (omega (arith, e)));
}

without_field :
    (counter : ℕ) (bytes : List ℕ)
    → 4 + length bytes ≡ packet_size
    → Carries (ts_header false audio_pid 1 counter ++ bytes) bytes
without_field counter bytes size = record {
  size = unfold ts_header in omega (arith, size);
  sync = unfold ts_header in refl;
  carried =
      unfold ts_header in
      if_both (λ (t : List ℕ). t ≡ bytes)
        (get_or (ts_header false audio_pid 1 counter) 3 0 / 16 % 4 == 1) _ _ (λ _. refl)
        (λ field.
          absurd
            (ground (arith, field, ts_header_control false audio_pid 1 counter (omega arith))));
}

first_packet-Carries :
    (state : MuxState) (remaining : List ℕ)
    → Carries (first_packet state remaining) (take (payload_size true remaining) remaining)
unfolding first_packet
first_packet-Carries state remaining =
    let adaptation_length = 7 + ((packet_size - 4 - 1 - 7) - length remaining) in
    let bytes = take (payload_size true remaining) remaining in
    let size : length bytes ≡ payload_size true remaining =
      omega (arith, length-take (payload_size true remaining) remaining) in
    let stuff : List ℕ = replicate (adaptation_length - 7) 0xff in
    let stuffed : length stuff ≡ adaptation_length - 7 =
      length-replicate {A = ℕ} (adaptation_length - 7) 0xff in
    let pcr = pcr_bytes (u64 (state.pts_90khz * 300)) in
    let pcr_size : length pcr ≡ 6 = unfold pcr_bytes in refl in
    let field = 0x50 ∷ (pcr ++ stuff) in
    let field_size : length field ≡ adaptation_length =
      omega (arith, length-append pcr stuff, pcr_size, stuffed) in
    subst
      (λ (rest : List ℕ).
        Carries
          (ts_header true audio_pid 3 state.audio_continuity_counter
            ++ (u8 adaptation_length ∷ 0x50 ∷ rest))
          bytes)
      (append_assoc pcr stuff bytes)
      (with_field true state.audio_continuity_counter (u8 adaptation_length) field bytes
        (omega (arith, field_size)) (omega (arith, field_size, size)))

stuffed_packet :
    (counter : ℕ) (remaining : List ℕ)
    → 0 < length remaining
    → length remaining < packet_size - 4
    → Carries
        (ts_header false audio_pid 3 counter
          ++ (stuffing (packet_size - 4 - length remaining) ++ remaining))
        remaining
unfolding stuffing
stuffed_packet counter remaining h short =
    let total = packet_size - 4 - length remaining in
    if_both
      (λ (field : List ℕ).
        Carries (ts_header false audio_pid 3 counter ++ (u8 (total - 1) ∷ (field ++ remaining)))
          remaining)
      (ltb 1 total) _ _
      (λ long.
        let size : length (replicate {A = ℕ} (total - 2) 0xff) ≡ total - 2 =
          length-replicate {A = ℕ} (total - 2) 0xff in
        let more_than_one : 1 < total = ltb→lt 1 total long in
        with_field false counter (u8 (total - 1)) (0x00 ∷ replicate (total - 2) 0xff) remaining
          (omega (arith, size, more_than_one, h)) (omega (arith, size, more_than_one, short)))
      (λ single.
        with_field false counter (u8 (total - 1)) [] remaining (ground (arith, single, short))
          (ground (arith, single, short)))

later_packet-Carries :
    (state : MuxState) (remaining : List ℕ)
    → 0 < length remaining
    → Carries (later_packet state remaining) (take (payload_size false remaining) remaining)
unfolding later_packet
later_packet-Carries state remaining h =
    if_both (λ (packet : List ℕ). Carries packet (take (payload_size false remaining) remaining))
      (ltb (length remaining) (packet_size - 4)) _ _
      (λ short.
        let total = packet_size - 4 - length remaining in
        subst
          (λ (bytes : List ℕ).
            Carries
              (ts_header false audio_pid 3 state.audio_continuity_counter
                ++ (stuffing total ++ remaining))
              bytes)
          (sym (take_all (payload_size false remaining) remaining (ground (arith, short))))
          (stuffed_packet state.audio_continuity_counter remaining h (ground (arith, short))))
      (λ full.
        let many : packet_size - 4 ≤ length remaining = ground (arith, full) in
        subst
          (λ (n : ℕ).
            Carries
              (ts_header false audio_pid 1 state.audio_continuity_counter
                ++ take (packet_size - 4) remaining)
              (take n remaining))
          {x = packet_size - 4} {y = payload_size false remaining} (omega (arith, many))
          (without_field state.audio_continuity_counter (take (packet_size - 4) remaining)
            (omega (arith, length-take (packet_size - 4) remaining, many))))

-- The packets that so many bytes take; the first has eight bytes less for them.
abbrev pub packets_needed : Bool → ℕ → ℕ
packets_needed true n = (n + 191) / 184
packets_needed false n = (n + 183) / 184

one_packet :
    (first : Bool) (remaining : List ℕ)
    → 0 < length remaining
    → packets_needed first (length remaining)
      ≡ 1 + packets_needed false (length remaining - payload_size first remaining)
one_packet true remaining h = omega arith
one_packet false remaining h = omega arith

takes_some :
    (first : Bool) (remaining : List ℕ)
    → 0 < length remaining
    → (0 < payload_size first remaining) × (payload_size first remaining ≤ length remaining)
takes_some true remaining h = (omega arith, omega arith)
takes_some false remaining h = (omega arith, omega arith)

packet-Carries :
    (first : Bool) (state : MuxState) (remaining : List ℕ)
    → 0 < length remaining
    → Carries
        (if first then first_packet state remaining else later_packet state remaining)
        (take (payload_size first remaining) remaining)
packet-Carries true state remaining h = first_packet-Carries state remaining
packet-Carries false state remaining h = later_packet-Carries state remaining h

-- What the loop returns for the bytes: at most so many packets behind the output, from which they
-- are read.
pub record IsMuxed (most : ℕ) (bytes output : List ℕ) (result : Option Muxed) : Type 0 where
  pub count : ℕ
  pub few : count ≤ most
  pub packets : List ℕ
  pub state : MuxState
  pub returned : result ≡ some (record { output = some (output ++ packets); state = state })
  pub size : length packets ≡ count * packet_size
  pub received : demux count packets ≡ bytes

one_more :
    {most most' : ℕ} (packet bytes rest output : List ℕ) {result : Option Muxed}
    → suc most' ≤ most
    → Carries packet bytes
    → IsMuxed most' rest (output ++ packet) result
    → IsMuxed most (bytes ++ rest) output result
unfolding demux
one_more packet bytes rest output less carries more = record {
  count = suc more.count;
  few = omega (arith, less, more.few);
  packets = packet ++ more.packets;
  state = more.state;
  returned =
      more.returned
      ∙ ap (λ (o : List ℕ). some (record { output = some o; state = more.state }))
          (append_assoc output packet more.packets);
  size = omega (arith, length-append packet more.packets, carries.size, more.size);
  received =
      ap₂ (λ (p r : List ℕ). payload p ++ demux more.count r)
        (take-append_exact packet_size packet more.packets (sym carries.size))
        (drop-append_exact packet_size packet more.packets (sym carries.size))
      ∙ ap₂ (λ (p r : List ℕ). p ++ r) carries.carried more.received;
}

pub packet_loop-IsMuxed :
    (fuel capacity : ℕ) (state : MuxState) (first : Bool) (remaining output : List ℕ)
    → length remaining < fuel
    → length output + packets_needed first (length remaining) * packet_size ≤ capacity
    → IsMuxed
        (packets_needed first (length remaining))
        remaining
        output
        (packet_loop fuel capacity state first remaining output)
unfolding packet_loop
packet_loop-IsMuxed zero capacity state first remaining output enough fits = absurd (omega arith)
packet_loop-IsMuxed (suc fuel) capacity state first [] output enough fits = record {
  count = 0;
  few = omega arith;
  packets = [];
  state = state;
  returned =
      ap (λ (o : List ℕ). some (record { output = some o; state = state }))
        (sym (append-nil output));
  size = omega arith;
  received = unfold demux in refl;
}
packet_loop-IsMuxed (suc fuel) capacity state first (x ∷ xs) output enough fits =
    let remaining = x ∷ xs in
    let some_left : 0 < length remaining = omega arith in
    let packet = if first then first_packet state remaining else later_packet state remaining in
    let carries = packet-Carries first state remaining some_left in
    let taken = takes_some first remaining some_left in
    let needed = one_packet first remaining some_left in
    let left = length-drop (payload_size first remaining) remaining in
    let next = record state {
      audio_continuity_counter = next_counter state.audio_continuity_counter;
    } in
    let rest =
      packet_loop-IsMuxed fuel capacity next false (drop (payload_size first remaining) remaining)
        (output ++ packet) (omega (arith, left, taken.0, taken.1, enough))
        (omega (arith, left, length-append output packet, carries.size, needed, fits)) in
    let most = packets_needed first (length remaining) in
    if_both (IsMuxed most remaining output) (length remaining == 0) _ _
      (λ empty. absurd (ground (arith, empty)))
      λ _.
        if_both (IsMuxed most remaining output) (ltb capacity (length output + packet_size)) _ _
          (λ full. absurd (ground (arith, full, fits, needed)))
          λ _.
            subst
              (λ (bytes : List ℕ). IsMuxed most bytes output (
                packet_loop fuel capacity next false (drop (payload_size first remaining) remaining)
                  (output ++ packet)))
              (take-append-drop (payload_size first remaining) remaining)
              (one_more packet (take (payload_size first remaining) remaining) _ output
                (omega (arith, needed, left)) carries rest)
