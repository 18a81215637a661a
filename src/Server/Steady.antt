-- ===== src/Server/Steady.antt =====
-- src/stream/server.c: what holds of a running session, so that none of its readers fails.
use mpxcast.Prelude.{
  ℕ, ◌≤◌, ◌<◌, ◌≡◌, ◌⊎◌, inl, inr, refl, sym, ap, ap₂, ◌∙◌, subst, Bool, true, ◌&&◌, ◌||◌, Option,
  some, List, [], ◌∷◌, arith, ◌==◌, All, if_both,
}
use mpxcast.Icy.{metaint}
use mpxcast.Session.Tuned.{IsTuned}
use mpxcast.Server.{
  Chunk, Client, Server, head_of, same_pointer, waits_at, any_waits_at, prune_loop, prune_chunks,
}
use mpxcast.Server.Queue.{Points, IsSafe, IsValid}
use mpxcast.Server.Clients.{client_at-All, put_client-All, put-IsValid}
use mpxcast.Server.Packing.{IsFull}
use mpxcast.Server.Reader.{client_at, put_client, put}

-- A client of the session wants titles only if the session has them, and audio is due before the next.
abbrev pub Plays : ℕ → Bool → Client → Type 0
Plays session_id titles client =
    client.session_id ≡ session_id
    → client.icy.enabled ≡ true
    → (titles ≡ true)
      × (0 < client.icy.audio_bytes_until_metadata)
      × (client.icy.audio_bytes_until_metadata ≤ metaint)

-- There is no chunk, or a client of the session waits at the first one.
abbrev pub IsTight : {P D : Type 0} → Server P D → Type 0
IsTight server =
    (server.chunks ≡ [])
    ⊎ (any_waits_at server.active_session_id (head_of server.chunks) server.clients ≡ true)

-- A valid server whose running session is tuned, with whole chunks that somebody waits for.
pub record IsSteady {P D : Type 0} (server : Server P D) : Type 0 where
  pub valid : IsValid server
  pub tuned : server.session_active ≡ true → IsTuned server.session
  pub full : All IsFull server.chunks
  pub plays :
      server.session_active ≡ true
      → All (Plays server.active_session_id server.session.icy.enabled) server.clients
  pub tight : IsTight server

prune_loop-All :
    (Q : Chunk → Type 0) (id : ℕ) (clients : List Client) (chunks : List Chunk) (tail : Option ℕ)
    (count : ℕ)
    → All Q chunks
    → All Q (prune_loop id clients chunks tail count).0
unfolding prune_loop
prune_loop-All Q id clients [] tail count all = tt
prune_loop-All Q id clients (chunk ∷ rest) tail count all =
    if_both (λ (r : List Chunk × Option ℕ × ℕ). All Q r.0)
      (any_waits_at id (some chunk.address) clients) _ _ (λ _. all)
      (λ _. prune_loop-All Q id clients rest _ _ all.1)

prune_loop_tight :
    (id : ℕ) (clients : List Client) (chunks : List Chunk) (tail : Option ℕ) (count : ℕ)
    → let left = (prune_loop id clients chunks tail count).0 in
      (left ≡ []) ⊎ (any_waits_at id (head_of left) clients ≡ true)
unfolding prune_loop
prune_loop_tight id clients [] tail count = inl refl
prune_loop_tight id clients (chunk ∷ rest) tail count =
    if_both
      (λ (r : List Chunk × Option ℕ × ℕ).
        (r.0 ≡ []) ⊎ (any_waits_at id (head_of r.0) clients ≡ true))
      (any_waits_at id (some chunk.address) clients) _ _ (λ awaited. inr awaited)
      (λ _. prune_loop_tight id clients rest _ _)

-- A client that is written back with its session and its place waits where it waited.
any_waits_at-put_client :
    (id : ℕ) (pointer : Option ℕ) (stream client : Client) (clients : List Client)
    → client_at clients stream.address ≡ some client
    → stream.session_id ≡ client.session_id
    → stream.next_chunk ≡ client.next_chunk
    → any_waits_at id pointer (put_client stream clients) ≡ any_waits_at id pointer clients
unfolding client_at put_client any_waits_at
any_waits_at-put_client id pointer stream client [] found same_session same_next = absurd cc
any_waits_at-put_client id pointer stream client (first ∷ rest) found same_session same_next =
    if_both
      (λ (cs : List Client).
        any_waits_at id pointer cs ≡ waits_at id pointer first || any_waits_at id pointer rest)
      (first.address == stream.address) _ _
      (λ here.
        let it : first ≡ client = ground (arith, here, found) in
        ap (λ w. w || any_waits_at id pointer rest)
          (ap₂ (λ (i : ℕ) (n : Option ℕ). (i == id) && same_pointer n pointer) same_session
              same_next
            ∙ ap (waits_at id pointer) (sym it)))
      (λ ne.
        ap (λ w. waits_at id pointer first || w)
          (any_waits_at-put_client id pointer stream client rest (ground (arith, ne, found))
            same_session same_next))

module _ {P D : Type 0} where
  -- Pruning makes a server tight.
  pub prune_chunks-IsSteady :
      (s : Server P D)
      → IsValid (prune_chunks s)
      → (s.session_active ≡ true → IsTuned s.session)
      → All IsFull s.chunks
      → (s.session_active ≡ true → All (Plays s.active_session_id s.session.icy.enabled) s.clients)
      → IsSteady (prune_chunks s)
  prune_chunks-IsSteady s valid tuned full plays = record {
    valid = valid;
    tuned = unfold prune_chunks in tuned;
    full =
        unfold prune_chunks in
        prune_loop-All IsFull s.active_session_id s.clients s.chunks s.chunk_tail s.chunk_count
          full;
    plays = unfold prune_chunks in plays;
    tight =
        unfold prune_chunks in
        prune_loop_tight s.active_session_id s.clients s.chunks s.chunk_tail s.chunk_count;
  }

  -- A client that is written back in its place.
  pub put-IsSteady :
      (s : Server P D) (stream client : Client)
      → IsSteady s
      → client_at s.clients stream.address ≡ some client
      → stream.session_id ≡ client.session_id
      → stream.next_chunk ≡ client.next_chunk
      → (s.session_active ≡ true → Plays s.active_session_id s.session.icy.enabled stream)
      → IsSteady (put s stream)
  put-IsSteady s stream client steady found same_session same_next plays =
      let id = s.active_session_id in
      let safe =
        (client_at-All (IsSafe id s.chunks) s.clients stream.address client found
          steady.valid.safe).0 in
      record {
        valid = put-IsValid s stream client steady.valid found same_session (λ current.
            subst (Points s.chunks) (sym same_next) (safe (sym same_session ∙ current)));
        tuned = steady.tuned;
        full = steady.full;
        plays = λ active.
            put_client-All (Plays id s.session.icy.enabled) stream s.clients (plays active)
              (steady.plays active);
        tight = elim steady.tight [
          | inl nothing ↦ inl nothing
          | inr awaited ↦ inr (
              any_waits_at-put_client id (head_of s.chunks) stream client s.clients found
                same_session same_next
              ∙ awaited)
        ];
      }
