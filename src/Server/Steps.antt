-- ===== src/Server/Steps.antt =====
-- src/stream/server.c: the server under requests, readers and disconnections in any order.
use mpxcast.Prelude.{
  ℕ, ◌≡◌, ◌≢◌, refl, sym, ap, ◌∙◌, subst, Bool, true, false, not, ◌||◌, Option, none, some, List,
  [], ◌∷◌, arith, ltb, ◌==◌, length, All, if_both, inl, inr, Option-cases,
}
use mpxcast.Icy.{IcyMetadata}
use mpxcast.MpegTs.{MuxState}
use mpxcast.Session.{Dsp, Seconds, Packed, start_clock, compute_audio_delay, prelude_of}
use mpxcast.Server.{
  Chunk, Client, Server, pack_chunk, store_packed, client_prelude, store_client_prelude, take_title,
  chunk_at, next_of, stream_buffer_size,
}
use mpxcast.Server.Queue.{has_address, Points, IsSafe, IsValid}
use mpxcast.Server.Prune.{prune_chunks-IsValid}
use mpxcast.Server.Append.{produce_chunk-IsProduced}
use mpxcast.Server.Clients.{client_at-All, put-IsValid}
use mpxcast.Server.Reading.{finds}
use mpxcast.Server.Reader.{
  client_at, put, Outcome, freed_chunk_read, send_prelude, send_packed, read_chunk, keep_produced,
  produce_or_wait, read_or_produce, read_client, read_found, content_reader,
}

-- A step that kept the server valid and read no chunk that was freed.
abbrev pub IsFine : {P D : Type 0} → Option (Outcome D × Server P D) → Type 0
IsFine none = Unit
IsFine (some result) = IsValid result.1 × (result.0 ≢ freed_chunk_read)

-- A client that keeps its place.
abbrev Keeps : Client → Option (Option (List ℕ) × Client) → Type 0
Keeps client none = Unit
Keeps client (some result) =
    (result.1.address ≡ client.address)
    × (result.1.next_chunk ≡ client.next_chunk)
    × (result.1.session_id ≡ client.session_id)

store_packed-Keeps :
    (client : Client) (packed : Option Packed) → Keeps client (store_packed client packed)
store_packed-Keeps client none = tt
store_packed-Keeps client (some packed) = (refl, refl, refl)

pack_chunk-Keeps :
    (client : Client) (chunk : Chunk) (metadata : IcyMetadata)
    → Keeps client (pack_chunk client chunk metadata)
unfolding pack_chunk
pack_chunk-Keeps client chunk metadata =
    store_packed-Keeps (record client { icy = take_title metadata client.icy }) _

module _ {P D : Type 0} (s : Server P D) (client : Client) (valid : IsValid s)
    (at : client_at s.clients client.address ≡ some client) where
  -- The client is written back with a pointer into the list.
  put_back :
      (after : Client)
      → after.address ≡ client.address
      → after.session_id ≡ client.session_id
      → (after.session_id ≡ s.active_session_id → Points s.chunks after.next_chunk)
      → IsValid (put s after)
  put_back after same_address same_session points =
      put-IsValid s after client valid (ap (client_at s.clients) same_address ∙ at) same_session
        points

  own-Points : client.session_id ≡ s.active_session_id → Points s.chunks client.next_chunk
  own-Points =
      (client_at-All (IsSafe s.active_session_id s.chunks) s.clients client.address client at
        valid.safe).0

  send_prelude-IsFine :
      (max : ℕ) (built : Option (List ℕ × IcyMetadata × MuxState))
      → IsFine (some (send_prelude s max (store_client_prelude client built)))
  send_prelude-IsFine max none = (valid, λ e. cc)
  send_prelude-IsFine max (some (prelude, icy, mux)) =
      if_both (λ r. IsFine (some r)) (ltb max (length prelude)) _ _
        (λ _. (put_back _ refl refl own-Points, λ e. cc))
        (λ _. (put_back _ refl refl own-Points, λ e. cc))

  send_packed-IsFine :
      (max : ℕ) (moved : Client) (packed : Option (Option (List ℕ) × Client))
      → Keeps moved packed
      → moved.address ≡ client.address
      → moved.session_id ≡ client.session_id
      → Points s.chunks moved.next_chunk
      → IsFine (send_packed s max packed)
  send_packed-IsFine max moved none keeps address session points = tt
  send_packed-IsFine max moved (some (none, after)) keeps address session points = (
    put_back after (keeps.0 ∙ address) (keeps.2 ∙ session)
        (λ _. subst (Points s.chunks) (sym keeps.1) points),
    λ e. cc,
  )
  send_packed-IsFine max moved (some (some packed, after)) keeps address session points =
      let stored =
        put_back after (keeps.0 ∙ address) (keeps.2 ∙ session)
          (λ _. subst (Points s.chunks) (sym keeps.1) points) in
      if_both IsFine (ltb max (length packed)) _ _ (λ _. (stored, λ e. cc))
        (λ _. ((prune_chunks-IsValid (put s after) stored).0, λ e. cc))

  read_chunk-IsFine :
      (max pointer : ℕ)
      → has_address s.chunks pointer ≡ true
      → IsFine (read_chunk s max client pointer (chunk_at s.chunks pointer))
  read_chunk-IsFine max pointer has =
      let found = finds 0 s.next_address s.chunks pointer valid.ascending has in
      let moved : Client = record client { next_chunk = next_of s.chunks pointer } in
      subst (λ c. IsFine (read_chunk s max client pointer c)) (sym found.found)
        (send_packed-IsFine max moved (pack_chunk moved found.chunk s.session.icy)
          (pack_chunk-Keeps moved found.chunk s.session.icy) refl refl found.points)

module _ {P D : Type 0} (dsp : Dsp P D) (time : Seconds D) (is_debug allocated : Bool)
    (now later : D) where
  keep_produced-IsFine :
      (done : Bool) (t : Server P D) → IsValid t → IsFine (keep_produced (some (done, t)))
  keep_produced-IsFine true t valid = (valid, λ e. cc)
  keep_produced-IsFine false t valid = (valid, λ e. cc)

  produce_or_wait-IsFine :
      (s : Server P D)
      → IsValid s
      → IsFine (produce_or_wait dsp time is_debug allocated now later s)
  unfolding produce_or_wait
  produce_or_wait-IsFine s valid =
      let started : Server P D = record s { session = start_clock s.session now } in
      let ok : IsValid started = record {
        queue = valid.queue;
        ascending = valid.ascending;
        safe = valid.safe;
        known = valid.known;
        started = valid.started;
        numbered = valid.numbered;
        apart = valid.apart;
      } in
      let made = produce_chunk-IsProduced dsp is_debug allocated started ok in
      if_both IsFine (time.is_due (compute_audio_delay time started.session later)) _ _
        (λ _.
          subst (λ r. IsFine (keep_produced r)) (sym made.returned)
            (keep_produced-IsFine made.done made.server made.valid))
        (λ _. (ok, λ e. cc))

  read_or_produce-IsFine :
      (max : ℕ) (s : Server P D) (client : Client) (pointer : Option ℕ)
      → IsValid s
      → client_at s.clients client.address ≡ some client
      → Points s.chunks pointer
      → IsFine (read_or_produce dsp time is_debug allocated now later max s client pointer)
  unfolding read_or_produce
  read_or_produce-IsFine max s client none valid at points = produce_or_wait-IsFine s valid
  read_or_produce-IsFine max s client (some pointer) valid at points =
      read_chunk-IsFine s client valid at max pointer points

  read_client-IsFine :
      (max : ℕ) (s : Server P D) (client : Client)
      → IsValid s
      → client_at s.clients client.address ≡ some client
      → IsFine (read_client dsp time is_debug allocated now later max s client)
  unfolding read_client client_prelude
  read_client-IsFine max s client valid at =
      if_both IsFine client.prelude_pending _ _
        (λ _.
          send_prelude-IsFine s client valid at max (
            prelude_of client.mode client.container client.icy client.mpegts_mux
              stream_buffer_size))
        λ _.
          if_both IsFine (not s.session_active || not (s.active_session_id == client.session_id)) _
            _ (λ _. (valid, λ e. cc))
            (λ same.
              read_or_produce-IsFine max s client client.next_chunk valid at
                (own-Points s client valid at (ground (arith, same))))

  -- A step of any reader keeps the server valid and never reads a chunk that was freed.
  pub content_reader-IsFine :
      (max address : ℕ) (s : Server P D)
      → IsValid s
      → IsFine (content_reader dsp time is_debug allocated now later max address s)
  unfolding content_reader
  content_reader-IsFine max address s valid = elim (Option-cases (client_at s.clients address)) [
    | inl nobody ↦
        subst (λ c. IsFine (read_found dsp time is_debug allocated now later max s c)) (sym nobody)
          (valid, λ e. cc)
    | inr (client, at) ↦
        let same =
          (client_at-All (λ _. Unit {0}) s.clients address client at (trivial s.clients)).1 in
        subst (λ c. IsFine (read_found dsp time is_debug allocated now later max s c)) (sym at)
          (read_client-IsFine max s client valid (ap (client_at s.clients) same ∙ at))
  ]
    where
      trivial : (clients : List Client) → All (λ _. Unit {0}) clients
      trivial [] = tt
      trivial (c ∷ cs) = (tt, trivial cs)
