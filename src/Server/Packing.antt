-- ===== src/Server/Packing.antt =====
-- src/stream/server.c: `client_stream_pack_chunk` and the client's buffer.
use mpxcast.Prelude.{
  ℕ, ◌*◌, ◌≤◌, ◌<◌, ◌≡◌, refl, sym, ap, ◌∙◌, subst, true, false, Option, some, List, arith, length,
  if_both,
}
use mpxcast.Icy.{IcyMetadata, metaint, metadata_block_capacity}
use mpxcast.Icy.Client.{hear, audio}
use mpxcast.Icy.Wrap.{IsReady}
use mpxcast.Icy.Update.{IsAnnounced}
use mpxcast.Session.{max_audio_frames_per_chunk, body_of}
use mpxcast.Session.Packing.{IsBody, body_of-IsBody, wrap_muxed-IsHeard}
use mpxcast.Server.{Chunk, Client, stream_buffer_size, take_title, store_packed, pack_chunk}

-- What packing gives: bytes for the connection, and the client behind them. `body` is what the
-- client's container makes of the samples.
pub record IsSent (client : Client) (chunk : Chunk) (result : Option (Option (List ℕ) × Client))
    : Type 0 where
  pub bytes : List ℕ
  pub after : Client
  pub body : List ℕ
  pub built : IsBody (
      body_of client.mode client.container client.mpegts_mux chunk.samples chunk.frame_count
        stream_buffer_size)
  pub is_body : body ≡ built.body
  pub returned : result ≡ some (some bytes, after)
  pub fits : length bytes ≤ stream_buffer_size
  pub plain : client.icy.enabled ≡ false → bytes ≡ body
  pub quiet : client.icy.enabled ≡ false → after.icy.enabled ≡ false
  pub titled :
      client.icy.enabled ≡ true
      → (hear (audio client.icy.audio_bytes_until_metadata) bytes
          ≡ (audio after.icy.audio_bytes_until_metadata, body))
        × IsReady after.icy
  pub same_address : after.address ≡ client.address
  pub same_pointer : after.next_chunk ≡ client.next_chunk
  pub same_session : after.session_id ≡ client.session_id

-- A chunk as the server produces them.
pub record IsFull (chunk : Chunk) : Type 0 where
  pub frames : chunk.frame_count ≡ max_audio_frames_per_chunk
  pub samples : max_audio_frames_per_chunk * 2 ≤ length chunk.samples

-- A chunk of 1024 frames in its buffer of 2048 samples is packed for every client that wants no
-- titles, and for every other where audio is due before its next title and the station's block may
-- be put out: the call returns, and what it returns fits into the client's buffer. It is the body
-- that the container makes of the samples, or a stream in which a client hears exactly that body.
pub pack_chunk-IsSent :
    (client : Client) (chunk : Chunk) (metadata : IcyMetadata)
    → IsFull chunk
    → (client.icy.enabled ≡ true
        → (0 < client.icy.audio_bytes_until_metadata)
          × (client.icy.audio_bytes_until_metadata ≤ metaint)
          × IsAnnounced metadata)
    → IsSent client chunk (pack_chunk client chunk metadata)
unfolding pack_chunk
pack_chunk-IsSent client chunk metadata full due =
    let icy = take_title metadata client.icy in
    let built =
      subst
        (λ n. IsBody (
          body_of client.mode client.container client.mpegts_mux chunk.samples n
            stream_buffer_size))
        (sym full.frames)
        (body_of-IsBody client.mode client.container client.mpegts_mux chunk.samples
          stream_buffer_size full.samples (omega arith)) in
    let same_enabled : icy.enabled ≡ client.icy.enabled =
      if_both (λ (s : IcyMetadata). s.enabled ≡ client.icy.enabled) client.icy.enabled _ _
        (λ _. refl) (λ _. refl) in
    let same_due : icy.audio_bytes_until_metadata ≡ client.icy.audio_bytes_until_metadata =
      if_both
        (λ (s : IcyMetadata). s.audio_bytes_until_metadata ≡ client.icy.audio_bytes_until_metadata)
        client.icy.enabled _ _ (λ _. refl) (λ _. refl) in
    let heard =
      wrap_muxed-IsHeard icy stream_buffer_size built (omega arith)
        (λ on. ready (sym same_enabled ∙ on)) in
    record {
      bytes = heard.bytes;
      after = record client { icy = heard.after; mpegts_mux = heard.mux };
      body = built.body;
      built = built;
      is_body = refl;
      returned = ap (store_packed (record client { icy = icy })) heard.returned;
      fits = heard.fits;
      plain = λ off. heard.plain (same_enabled ∙ off);
      quiet = λ off.
          ap (λ (s : IcyMetadata). s.enabled) (heard.quiet (same_enabled ∙ off))
          ∙ same_enabled
          ∙ off;
      titled = λ on.
          let (hears, is_ready) = heard.titled (same_enabled ∙ on) in
          (ap (λ n. hear (audio n) heard.bytes) (sym same_due) ∙ hears, is_ready);
      same_address = refl;
      same_pointer = refl;
      same_session = refl;
    }
  where
    ready :
        client.icy.enabled ≡ true
        → IsReady (take_title metadata client.icy)
          × ((take_title metadata client.icy).metadata_length ≤ metadata_block_capacity)
    ready on =
        let (pos, le, announced) = due on in
        if_both (λ (s : IcyMetadata). IsReady s × (s.metadata_length ≤ metadata_block_capacity))
          client.icy.enabled _ _
          (λ _. (record { due_pos = pos; due_le = le; block = announced.block }, announced.short))
          (λ off. absurd (ground (arith, on, off)))
