-- ===== src/Server/Reading.antt =====
-- src/stream/server.c: a step of `stream_content_reader` takes the first chunk of the client's queue.
use mpxcast.Prelude.{
  ℕ, suc, ◌≤◌, ◌<◌, ◌≡◌, refl, sym, ap, ◌∙◌, subst, Bool, true, false, not, ◌||◌, Option, none,
  some, List, [], ◌∷◌, map, arith, ltb, ◌==◌, if◌then◌else◌, length, All, if_both, Bool-cases, inl,
  inr,
}
use mpxcast.Icy.{metaint}
use mpxcast.Icy.Update.{IsAnnounced}
use mpxcast.Session.{Dsp, Seconds}
use mpxcast.Server.{
  Chunk, Client, Server, next_of, chunk_at, head_of, prune_chunks, pack_chunk, stream_buffer_size,
}
use mpxcast.Server.Queue.{
  from_pointer, queue_of, queues, has_address, Points, IsSafe, Ascending, IsValid,
}
use mpxcast.Server.Prune.{prune_chunks-IsValid}
use mpxcast.Server.Reader.{
  client_at, put_client, put, Outcome, bytes, send_packed, read_chunk, read_client, read_or_produce,
  read_found, content_reader,
}
use mpxcast.Server.Clients.{client_at-All, put-IsValid}
use mpxcast.Server.Packing.{IsSent, IsFull, pack_chunk-IsSent}

above :
    (low high : ℕ) (chunks : List Chunk) (address : ℕ)
    → Ascending low chunks high
    → has_address chunks address ≡ true
    → low ≤ address
unfolding has_address
above low high [] address up found = absurd cc
above low high (chunk ∷ rest) address up found = elim (Bool-cases (chunk.address == address)) [
  | inl here ↦ ground (arith, here, up.0)
  | inr ne ↦
      omega
        (arith, up.0, above (suc chunk.address) high rest address up.1 (ground (arith, ne, found)))
]

-- A pointer behind the first chunk is not at it.
behind :
    (high : ℕ) (chunk : Chunk) (rest : List Chunk) (pointer : Option ℕ)
    → Ascending (suc chunk.address) rest high
    → Points rest pointer
    → Points (chunk ∷ rest) pointer
      × (from_pointer (chunk ∷ rest) pointer ≡ from_pointer rest pointer)
unfolding from_pointer has_address
behind high chunk rest none up points = (tt, refl)
behind high chunk rest (some address) up points = (
  ground (arith, points),
  if_both (λ (q : List Chunk). q ≡ from_pointer rest (some address)) (chunk.address == address) _ _
      (λ here. absurd (ground (arith, here, above (suc chunk.address) high rest address up points)))
      (λ _. refl),
)

-- What a pointer into the list finds: a chunk, and the queue behind it.
pub record Finds (chunks : List Chunk) (address : ℕ) : Type 0 where
  pub chunk : Chunk
  pub rest : List Chunk
  pub found : chunk_at chunks address ≡ some chunk
  pub queue : from_pointer chunks (some address) ≡ chunk ∷ rest
  pub points : Points chunks (next_of chunks address)
  pub next : from_pointer chunks (next_of chunks address) ≡ rest

head-Points :
    (chunks : List Chunk)
    → Points chunks (head_of chunks) × (from_pointer chunks (head_of chunks) ≡ chunks)
unfolding from_pointer has_address
head-Points [] = (tt, refl)
head-Points (chunk ∷ rest) = (
  ground arith,
  if_both (λ (q : List Chunk). q ≡ chunk ∷ rest) (chunk.address == chunk.address) _ _ (λ _. refl)
      (λ ne. absurd (ground (arith, ne))),
)

pub finds :
    (low high : ℕ) (chunks : List Chunk) (address : ℕ)
    → Ascending low chunks high
    → has_address chunks address ≡ true
    → Finds chunks address
unfolding chunk_at next_of from_pointer has_address
finds low high [] address up found = absurd cc
finds low high (first ∷ others) address up found = elim (Bool-cases (first.address == address)) [
  | inl here ↦
      let head = head-Points others in
      let after = behind high first others (head_of others) up.1 head.0 in
      record {
        chunk = first;
        rest = others;
        found = rw here refl;
        queue = rw here refl;
        points = rw here after.0;
        next = rw here (after.1 ∙ head.1);
      }
  | inr ne ↦
      let later = finds (suc first.address) high others address up.1 (ground (arith, ne, found)) in
      let after = behind high first others (next_of others address) up.1 later.points in
      record {
        chunk = later.chunk;
        rest = later.rest;
        found = rw ne later.found;
        queue = rw ne later.queue;
        points = rw ne after.0;
        next = rw ne (after.1 ∙ later.next);
      }
]

-- The client at an address takes the first chunk of its queue; the other queues stay.
abbrev pub take_first : Option (List Chunk) → Option (List Chunk)
take_first none = none
take_first (some []) = some []
take_first (some (chunk ∷ rest)) = some rest

abbrev pub advance : ℕ → List Client → List (Option (List Chunk)) → List (Option (List Chunk))
advance address [] waiting = waiting
advance address (client ∷ clients) [] = []
advance address (client ∷ clients) (queue ∷ waiting) =
    if client.address == address
    then take_first queue ∷ waiting
    else queue ∷ advance address clients waiting

map-advance :
    (f : Client → Option (List Chunk)) (stream client : Client) (clients : List Client)
    → client_at clients stream.address ≡ some client
    → f stream ≡ take_first (f client)
    → map f (put_client stream clients) ≡ advance stream.address clients (map f clients)
unfolding client_at put_client
map-advance f stream client [] found taken = absurd cc
map-advance f stream client (first ∷ rest) found taken =
    elim (Bool-cases (first.address == stream.address)) [
      | inl here ↦
          let it : first ≡ client = ground (arith, here, found) in
          rw here (
            ap (λ (q : Option (List Chunk)). q ∷ map f rest)
              (taken ∙ ap (λ c. take_first (f c)) (sym it)))
      | inr ne ↦ rw ne (
          ap (λ (qs : List (Option (List Chunk))). f first ∷ qs)
            (map-advance f stream client rest (ground (arith, ne, found)) taken))
    ]

chunk_at-All :
    (Q : Chunk → Type 0) (chunks : List Chunk) (address : ℕ) (chunk : Chunk)
    → chunk_at chunks address ≡ some chunk
    → All Q chunks
    → Q chunk
unfolding chunk_at
chunk_at-All Q [] address chunk found all = absurd cc
chunk_at-All Q (first ∷ rest) address chunk found all =
    elim (Bool-cases (first.address == address)) [
      | inl here ↦ let it : first ≡ chunk = ground (arith, here, found) in subst Q it all.0
      | inr ne ↦ chunk_at-All Q rest address chunk (ground (arith, ne, found)) all.1
    ]

-- What a step at a chunk gives: the client's next bytes, which are the first chunk of its queue as
-- it is packed for the client, and a valid server in which this chunk is taken from its queue.
pub record IsRead {P D : Type 0} (s : Server P D) (client : Client)
    (result : Option (Outcome D × Server P D)) : Type 0 where
  pub chunk : Chunk
  pub rest : List Chunk
  pub pointer : Option ℕ
  pub server : Server P D
  pub waiting : queue_of s.active_session_id s.chunks client ≡ some (chunk ∷ rest)
  pub sent :
      IsSent
        (record client { next_chunk = pointer })
        chunk
        (pack_chunk (record client { next_chunk = pointer }) chunk s.session.icy)
  pub returned : result ≡ some (bytes sent.bytes, server)
  pub valid : IsValid server
  pub taken : queues server ≡ advance client.address s.clients (queues s)
  pub left : server ≡ prune_chunks (put s sent.after)

module _ {P D : Type 0} (dsp : Dsp P D) (time : Seconds D) (is_debug allocated : Bool)
    (now later : D) where
  -- At a valid server with chunks of 1024 frames, where a client of the running session has a chunk
  -- waiting, is past its prelude, and its titles, if it wants any, may be put out: a step with room
  -- for 32768 bytes returns bytes. It gives the client the first chunk of its queue, packed for it,
  -- takes that chunk from its queue and from no other, and leaves a valid server.
  pub content_reader-IsRead :
      (max : ℕ) (s : Server P D) (client : Client) (pointer : ℕ)
      → IsValid s
      → All IsFull s.chunks
      → client_at s.clients client.address ≡ some client
      → client.next_chunk ≡ some pointer
      → client.prelude_pending ≡ false
      → s.session_active ≡ true
      → client.session_id ≡ s.active_session_id
      → (client.icy.enabled ≡ true
          → (0 < client.icy.audio_bytes_until_metadata)
            × (client.icy.audio_bytes_until_metadata ≤ metaint)
            × IsAnnounced s.session.icy)
      → stream_buffer_size ≤ max
      → IsRead s client (content_reader dsp time is_debug allocated now later max client.address s)
  unfolding content_reader read_client read_or_produce
  content_reader-IsRead max s client pointer valid full at waits past active current due wide =
      let id = s.active_session_id in
      let safe =
        (client_at-All (IsSafe id s.chunks) s.clients client.address client at valid.safe).0 in
      let has : has_address s.chunks pointer ≡ true =
        subst (Points s.chunks) waits (safe current) in
      let found = finds 0 s.next_address s.chunks pointer valid.ascending has in
      let moved : Client = record client { next_chunk = next_of s.chunks pointer } in
      let sent =
        pack_chunk-IsSent moved found.chunk s.session.icy
          (chunk_at-All IsFull s.chunks pointer found.chunk found.found full) due in
      let here : client_at s.clients sent.after.address ≡ some client =
        ap (client_at s.clients) sent.same_address ∙ at in
      let stored =
        put-IsValid s sent.after client valid here sent.same_session
          (λ _. subst (Points s.chunks) (sym sent.same_pointer) found.points) in
      let pruned = prune_chunks-IsValid (put s sent.after) stored in
      let is_mine : queue_of id s.chunks client ≡ some (found.chunk ∷ found.rest) =
        mine id s.chunks client current (ap (from_pointer s.chunks) waits ∙ found.queue) in
      record {
        chunk = found.chunk;
        rest = found.rest;
        pointer = next_of s.chunks pointer;
        server = prune_chunks (put s sent.after);
        waiting = is_mine;
        sent = sent;
        returned =
            ap (read_found dsp time is_debug allocated now later max s) at
            ∙ if_both
                (λ (r : Option (Outcome D × Server P D)).
                  r ≡ some (bytes sent.bytes, prune_chunks (put s sent.after)))
                client.prelude_pending _ _ (λ pending. absurd (ground (arith, pending, past)))
                (λ _.
                  if_both
                    (λ (r : Option (Outcome D × Server P D)).
                      r ≡ some (bytes sent.bytes, prune_chunks (put s sent.after)))
                    (not s.session_active || not (s.active_session_id == client.session_id)) _ _
                    (λ ended. absurd (ground (arith, ended, active, current)))
                    (λ _.
                      ap (read_or_produce dsp time is_debug allocated now later max s client) waits
                      ∙ ap (read_chunk s max client pointer) found.found
                      ∙ ap (send_packed s max) sent.returned
                      ∙ if_both
                          (λ (r : Option (Outcome D × Server P D)).
                            r ≡ some (bytes sent.bytes, prune_chunks (put s sent.after)))
                          (ltb max (length sent.bytes)) _ _
                          (λ long. absurd (ground (arith, long, sent.fits, wide))) (λ _. refl)));
        valid = pruned.0;
        taken =
            pruned.1
            ∙ map-advance (queue_of id s.chunks) sent.after client s.clients here (
                mine id s.chunks sent.after (sent.same_session ∙ current)
                  (ap (from_pointer s.chunks) sent.same_pointer ∙ found.next)
                ∙ ap take_first (sym is_mine))
            ∙ ap (λ a. advance a s.clients (queues s)) sent.same_address;
        left = refl;
      }
    where
      mine :
          (id : ℕ) (chunks : List Chunk) (c : Client) {queue : List Chunk}
          → c.session_id ≡ id
          → from_pointer chunks c.next_chunk ≡ queue
          → queue_of id chunks c ≡ some queue
      mine id chunks c {queue} same waiting =
          if_both (λ (q : Option (List Chunk)). q ≡ some queue) (c.session_id == id) _ _
            (λ _. ap some waiting) (λ other. absurd (ground (arith, other, same)))
