-- ===== src/Server/Room.antt =====
-- src/stream/server.c: `server_make_chunk_room` drops exactly the clients that lag a full buffer.
use mpxcast.Prelude.{
  ◌⊎◌, ℕ, suc, ◌+◌, ◌-◌, ◌≤◌, ◌<◌, ◌≡◌, refl, ap, ◌∙◌, Bool, true, false, not, Option, some, List,
  [], ◌∷◌, map, arith, leb, ◌==◌, if◌then◌else◌, length, if_both, Bool-cases, inl, inr,
}
use mpxcast.Server.{
  Chunk, Server, any_waits_at, drop_clients, prune_chunks, make_room_loop, make_chunk_room,
  max_buffered_chunks, head_of,
}
use mpxcast.Server.Queue.{queues, IsValid}
use mpxcast.Server.Prune.{prune_chunks-IsValid, prune_loop_frees}
use mpxcast.Server.Dropping.{
  any_waits-pos, drop_full, drop_slow-queues, dropped, dropped-IsSafe, dropped-apart, dropped-known,
  no_drop, nobody_waits,
}

-- What making room leaves: a valid server with room for a chunk, unless it was full and nobody
-- waited for all of it; the clients that a full buffer waited for, and no others, left the session.
pub record IsRoomy {P D : Type 0} (before : Server P D) (result : Option (Bool × Server P D))
    : Type 0 where
  pub roomy : Bool
  pub server : Server P D
  pub returned : result ≡ some (roomy, server)
  pub valid : IsValid server
  pub kept :
      (server.session ≡ before.session)
      × (server.next_address ≡ before.next_address)
      × (server.active_session_id ≡ before.active_session_id)
  pub rounds : (server ≡ before) ⊎ ((server ≡ drop_clients before) × (0 < length before.chunks))
  pub room : roomy ≡ true → length server.chunks < max_buffered_chunks
  pub no_room :
      roomy ≡ false
      → (length before.chunks ≡ max_buffered_chunks)
        × (any_waits_at before.active_session_id (head_of before.chunks) before.clients ≡ false)
  pub dropped_clients : queues server ≡ (
      if length before.chunks == max_buffered_chunks
      then map drop_full (queues before)
      else queues before)

module _ {P D : Type 0} where
  -- A round at a full buffer, of the chunks given here.
  drop_clients-IsValid :
      (s : Server P D) (chunks : List Chunk)
      → length chunks ≡ max_buffered_chunks
      → 0 < s.active_session_id
      → IsValid (record s { chunks = chunks })
      → let t = drop_clients (record s { chunks = chunks }) in
        IsValid t
        × (queues t ≡ map drop_full (queues (record s { chunks = chunks })))
        × (length t.chunks < max_buffered_chunks)
  unfolding drop_clients
  drop_clients-IsValid s [] full pos valid = absurd (omega arith)
  drop_clients-IsValid s (chunk ∷ rest) full pos valid =
      let id = s.active_session_id in
      let t : Server P D = record s {
        chunks = chunk ∷ rest;
        clients = map (dropped id chunk rest pos) s.clients;
      } in
      let pruned = prune_chunks-IsValid t (record {
        queue = valid.queue;
        ascending = valid.ascending;
        safe = dropped-IsSafe id chunk rest pos s.clients valid.safe;
        known = dropped-known id chunk rest pos s.clients valid.known;
        started = λ _. pos;
        numbered = λ _. pos;
        apart = dropped-apart id chunk rest pos s.next_address s.clients valid.apart;
      }) in
      (
        pruned.0,
        pruned.1 ∙ drop_slow-queues id chunk rest pos s.clients full,
        unfold prune_chunks in
            omega (
              arith,
              full,
              prune_loop_frees id t.clients (chunk ∷ rest) s.chunk_tail s.chunk_count (omega arith)
                  (nobody_waits id chunk rest pos s.clients),
            ),
      )

  stop_round :
      (fuel : ℕ) (s : Server P D)
      → s.chunk_count < max_buffered_chunks
      → make_room_loop (suc fuel) s ≡ some (true, s)
  unfolding make_room_loop
  stop_round fuel s low =
      if_both (λ r. r ≡ some (true, s)) (not (leb max_buffered_chunks s.chunk_count)) _ _
        (λ _. refl) (λ high. absurd (ground (arith, high, low)))

  next_round :
      (fuel : ℕ) (s : Server P D)
      → max_buffered_chunks ≤ s.chunk_count
      → any_waits_at s.active_session_id (head_of s.chunks) s.clients ≡ true
      → make_room_loop (suc fuel) s ≡ make_room_loop fuel (drop_clients s)
  unfolding make_room_loop
  next_round fuel s high somebody =
      let rest = make_room_loop fuel (drop_clients s) in
      if_both (λ r. r ≡ rest) (not (leb max_buffered_chunks s.chunk_count)) _ _
        (λ low. absurd (ground (arith, high, low)))
        λ _.
          if_both (λ r. r ≡ rest)
            (not (any_waits_at s.active_session_id (head_of s.chunks) s.clients)) _ _
            (λ nobody. absurd (ground (arith, nobody, somebody))) (λ _. refl)

  last_round :
      (fuel : ℕ) (s : Server P D)
      → max_buffered_chunks ≤ s.chunk_count
      → any_waits_at s.active_session_id (head_of s.chunks) s.clients ≡ false
      → make_room_loop (suc fuel) s ≡ some (false, s)
  unfolding make_room_loop
  last_round fuel s high nobody =
      if_both (λ r. r ≡ some (false, s)) (not (leb max_buffered_chunks s.chunk_count)) _ _
        (λ low. absurd (ground (arith, high, low)))
        λ _.
          if_both (λ r. r ≡ some (false, s))
            (not (any_waits_at s.active_session_id (head_of s.chunks) s.clients)) _ _ (λ _. refl)
            (λ somebody. absurd (ground (arith, nobody, somebody)))

  at_full :
      (s : Server P D) {x y : List (Option (List Chunk))}
      → length s.chunks ≡ max_buffered_chunks
      → x ≡ y
      → x ≡ (if length s.chunks == max_buffered_chunks then y else queues s)
  at_full s {x = x} full e =
      if_both (λ q. x ≡ q) (length s.chunks == max_buffered_chunks) _ _ (λ _. e)
        (λ ne. absurd (ground (arith, ne, full)))

  -- From a valid server the function returns, within the rounds that it has: with room for a chunk,
  -- unless the buffer is full and no client waits for all of it. Exactly the clients that a full
  -- buffer of 256 chunks waits for leave the session, and the queues of the others stay.
  pub make_chunk_room-IsRoomy : (s : Server P D) → IsValid s → IsRoomy s (make_chunk_room s)
  unfolding make_chunk_room
  make_chunk_room-IsRoomy s valid = elim (Bool-cases (leb max_buffered_chunks s.chunk_count)) [
    | inr low ↦ record {
      roomy = true;
      server = s;
      returned = one_more ∙ stop_round (length s.clients) s (ground (arith, low));
      valid = valid;
      kept = (refl, refl, refl);
      rounds = inl refl;
      room = λ _. ground (arith, low, valid.queue.counted);
      no_room = λ e. absurd cc;
      dropped_clients =
          if_both (λ q. queues s ≡ q) (length s.chunks == max_buffered_chunks) _ _
            (λ full. absurd (ground (arith, full, low, valid.queue.counted))) (λ _. refl);
    }
    | inl high ↦
        let full : length s.chunks ≡ max_buffered_chunks =
          ground (arith, high, valid.queue.counted, valid.queue.bounded) in
        elim (Bool-cases (any_waits_at s.active_session_id (head_of s.chunks) s.clients)) [
          | inr nobody ↦ record {
            roomy = false;
            server = s;
            returned = one_more ∙ last_round (length s.clients) s (ground (arith, high)) nobody;
            valid = valid;
            kept = (refl, refl, refl);
            rounds = inl refl;
            room = λ e. absurd cc;
            no_room = λ _. (full, nobody);
            dropped_clients =
                at_full s full
                  (no_drop s.active_session_id s.chunks s.clients full valid.started nobody);
          }
          | inl somebody ↦
              let some_client = any_waits-pos s.active_session_id _ s.clients somebody in
              let dropped =
                drop_clients-IsValid s s.chunks full (valid.started some_client) valid in
              record {
                roomy = true;
                server = drop_clients s;
                returned =
                    one_more
                    ∙ next_round (length s.clients) s (ground (arith, high)) somebody
                    ∙ ap (λ n. make_room_loop n (drop_clients s)) {x = length s.clients}
                        {y = suc (length s.clients - 1)} (omega arith)
                    ∙ stop_round (length s.clients - 1) (drop_clients s)
                        (omega (arith, dropped.0.queue.counted, dropped.2));
                valid = dropped.0;
                kept = unfold drop_clients prune_chunks in (refl, refl, refl);
                rounds = inr (refl, omega (arith, full));
                room = λ _. dropped.2;
                no_room = λ e. absurd cc;
                dropped_clients = at_full s full dropped.1;
              }
        ]
  ]
    where
      one_more : make_room_loop (length s.clients + 1) s ≡ make_room_loop (suc (length s.clients)) s
      one_more = ap (λ n. make_room_loop n s) {x = length s.clients + 1} (omega arith)
