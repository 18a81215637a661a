-- ===== src/Session/Packing.antt =====
-- src/stream/session.c and server.c: a chunk of 1024 frames fits into the buffers, with its titles.
use mpxcast.Prelude.{
  ℕ, zero, suc, ◌+◌, ◌-◌, ◌*◌, ◌/◌, ◌≤◌, ◌≡◌, refl, sym, ap, subst, true, false, not, Option, some,
  List, ◌++◌, arith, ◌==◌, length, take, length-append, length-take, if_both, Bool-cases, inl, inr,
}
use mpxcast.Icy.{IcyMetadata, metaint, metadata_block_capacity}
use mpxcast.Icy.Client.{hear, audio}
use mpxcast.Icy.Wrap.{IsReady, room, wrap_heard}
use mpxcast.Http.{StreamMode, mono, stereo, StreamContainer, wav, mpegts}
use mpxcast.MpegTs.{MuxState}
use mpxcast.MpegTs.Mux.{Muxed}
use mpxcast.MpegTs.Mux.Whole.{write_audio_received, samples_read, pat-size, pmt-size}
use mpxcast.MpegTs.Tables.{write_pat_packet, write_pmt_packet}
use mpxcast.Wav
use mpxcast.Session.{
  Packed, channels_of, max_audio_frames_per_chunk, sample_bytes, body_of, keep_wrapped, wrap_body,
  wrap_muxed,
}

-- The body of a chunk: bytes that fit, and the state of the mux behind them.
pub record IsBody (result : Option Muxed) : Type 0 where
  pub body : List ℕ
  pub mux : MuxState
  pub returned : result ≡ some (record { output = some body; state = mux })
  pub size : length body ≤ 4700

length-take_le : (n : ℕ) (xs : List ℕ) → length (take n xs) ≤ n
length-take_le n xs = omega (arith, length-take n xs)

channels-le : (mode : StreamMode) → channels_of mode ≤ 2
channels-le mono = omega arith
channels-le stereo = omega arith

reads_few : (mux : MuxState) (n : ℕ) → samples_read mux n ≤ n * 2
reads_few mux n =
    if_both (λ k. k ≤ n * 2) (mux.channels == 2) _ _ (λ _. omega arith) (λ _. omega arith)

-- A chunk of 1024 frames in a buffer of 2048 samples.
pub body_of-IsBody :
    (mode : StreamMode) (container : StreamContainer) (mux : MuxState) (samples : List ℕ)
    (capacity : ℕ)
    → max_audio_frames_per_chunk * 2 ≤ length samples
    → 4700 ≤ capacity
    → IsBody (body_of mode container mux samples max_audio_frames_per_chunk capacity)
unfolding body_of
body_of-IsBody mode mpegts mux samples capacity whole fits =
    let sent =
      write_audio_received mux samples max_audio_frames_per_chunk capacity (omega arith)
        (omega (arith, reads_few mux max_audio_frames_per_chunk, whole)) (omega (arith, fits)) in
    let pat = (write_pat_packet mux).0 in
    let pmt = (write_pmt_packet (write_pat_packet mux).1).0 in
    record {
      body = (pat ++ pmt) ++ sent.packets;
      mux = sent.after;
      returned = sent.returned;
      size = omega (
        arith,
        length-append (pat ++ pmt) sent.packets,
        length-append pat pmt,
        pat-size mux,
        pmt-size (write_pat_packet mux).1,
        sent.size,
        sent.few,
      );
    }
body_of-IsBody stereo wav mux samples capacity whole fits = record {
  body = take (Wav.body_size 2 max_audio_frames_per_chunk) (sample_bytes samples);
  mux = mux;
  returned = refl;
  size =
      omega
        (arith, length-take_le (Wav.body_size 2 max_audio_frames_per_chunk) (sample_bytes samples));
}
body_of-IsBody mono wav mux samples capacity whole fits = record {
  body = take (Wav.body_size 1 max_audio_frames_per_chunk) (sample_bytes samples);
  mux = mux;
  returned = refl;
  size =
      omega
        (arith, length-take_le (Wav.body_size 1 max_audio_frames_per_chunk) (sample_bytes samples));
}

-- What a client gets: bytes that fit, in which it hears the body, or that are the body.
pub record IsHeard (icy : IcyMetadata) (body : List ℕ) (capacity : ℕ) (result : Option Packed)
    : Type 0 where
  pub bytes : List ℕ
  pub mux : MuxState
  pub after : IcyMetadata
  pub returned : result ≡ some (record { output = some bytes; mux = mux; icy = after })
  pub fits : length bytes ≤ capacity
  pub plain : icy.enabled ≡ false → bytes ≡ body
  pub quiet : icy.enabled ≡ false → after ≡ icy
  pub titled :
      icy.enabled ≡ true
      → (hear (audio icy.audio_bytes_until_metadata) bytes
          ≡ (audio after.audio_bytes_until_metadata, body))
        × IsReady after

-- A body of a chunk falls into at most two intervals.
room-le :
    (icy : IcyMetadata) (n : ℕ)
    → n ≤ 4700
    → icy.metadata_length ≤ metadata_block_capacity
    → room icy n ≤ 5212
room-le icy n small short =
    let blocks = (metaint - icy.audio_bytes_until_metadata + n) / metaint in
    let few : blocks ≤ 1 = omega (arith, small) in at_most blocks few
  where
    at_most : (blocks : ℕ) → blocks ≤ 1 → n + blocks * icy.metadata_length ≤ 5212
    at_most zero few = omega (arith, small)
    at_most (suc zero) few = omega (arith, small, short)
    at_most (suc (suc k)) few = absurd (omega arith)

pub wrap_body-IsHeard :
    (icy : IcyMetadata) (mux : MuxState) (body : List ℕ) (capacity : ℕ)
    → length body ≤ 4700
    → 5212 ≤ capacity
    → (icy.enabled ≡ true → IsReady icy × (icy.metadata_length ≤ metadata_block_capacity))
    → IsHeard icy body capacity (wrap_body icy capacity mux (some body))
wrap_body-IsHeard icy mux body capacity small wide ready = elim (Bool-cases icy.enabled) [
  | inr off ↦ record {
    bytes = body;
    mux = mux;
    after = icy;
    returned =
        if_both
          (λ (r : Option Packed). r ≡ some (record { output = some body; mux = mux; icy = icy }))
          (not icy.enabled) _ _ (λ _. refl) (λ on. absurd (ground (arith, on, off)));
    fits = omega (arith, small, wide);
    plain = λ _. refl;
    quiet = λ _. refl;
    titled = λ on. absurd (ground (arith, on, off));
  }
  | inl on ↦
      let (is_ready, short) = ready on in
      let wrapped =
        wrap_heard icy body capacity on is_ready
          (omega (arith, wide, room-le icy (length body) small short)) in
      record {
        bytes = wrapped.more;
        mux = mux;
        after = wrapped.state;
        returned =
            if_both
              (λ (r : Option Packed).
                r ≡ some (record { output = some wrapped.more; mux = mux; icy = wrapped.state }))
              (not icy.enabled) _ _ (λ off. absurd (ground (arith, on, off)))
              (λ _. ap (keep_wrapped mux) wrapped.returned);
        fits = omega (arith, wrapped.fits, wide, room-le icy (length body) small short);
        plain = λ off. absurd (ground (arith, on, off));
        quiet = λ off. absurd (ground (arith, on, off));
        titled = λ _. (wrapped.heard, wrapped.ready);
      }
]

-- Both steps: the body is built and wrapped.
pub wrap_muxed-IsHeard :
    (icy : IcyMetadata) (capacity : ℕ) {muxed : Option Muxed}
    → (built : IsBody muxed) → 5212 ≤ capacity
    → (icy.enabled ≡ true → IsReady icy × (icy.metadata_length ≤ metadata_block_capacity))
    → IsHeard icy built.body capacity (wrap_muxed icy capacity muxed)
wrap_muxed-IsHeard icy capacity built wide ready =
    subst (IsHeard icy built.body capacity) (sym (ap (wrap_muxed icy capacity) built.returned))
      (wrap_body-IsHeard icy built.mux built.body capacity built.size wide ready)
