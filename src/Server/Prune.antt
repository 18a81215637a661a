-- ===== src/Server/Prune.antt =====
-- src/stream/server.c: `server_prune_chunks` frees only chunks that no client of the session reads.
use mpxcast.Prelude.{
  ℕ, suc, ◌+◌, ◌-◌, ◌%◌, ◌^◌, ◌≤◌, ◌<◌, ◌≡◌, ◌⊎◌, refl, sym, ap, ap₂, ◌∙◌, subst, true, false,
  Option, none, some, List, [], ◌∷◌, map, arith, ◌==◌, if◌then◌else◌, length, All, if_both,
  Bool-cases, inl, inr,
}
use mpxcast.Server.{
  Chunk, Client, Server, waits_at, any_waits_at, same_pointer, prune_loop, prune_chunks, head_of,
}
use mpxcast.Server.Queue.{
  from_pointer, queue_of, queues, has_address, Points, IsSafe, Ascending, last_of, IsQueue, IsValid,
}

-- A pointer elsewhere does not need the first chunk.
skip_pointer :
    (chunk : Chunk) (rest : List Chunk) (pointer : Option ℕ)
    → same_pointer pointer (some chunk.address) ≡ false
    → Points (chunk ∷ rest) pointer
    → Points rest pointer × (from_pointer rest pointer ≡ from_pointer (chunk ∷ rest) pointer)
unfolding has_address from_pointer
skip_pointer chunk rest none elsewhere points = (tt, refl)
skip_pointer chunk rest (some address) elsewhere points = (
  ground (arith, elsewhere, points),
  if_both (λ found. from_pointer rest (some address) ≡ found) (chunk.address == address) _ _
      (λ here. absurd (ground (arith, here, elsewhere))) (λ _. refl),
)

skip_one :
    (id : ℕ) (chunk : Chunk) (rest : List Chunk) (client : Client)
    → waits_at id (some chunk.address) client ≡ false
    → IsSafe id (chunk ∷ rest) client
    → IsSafe id rest client × (queue_of id rest client ≡ queue_of id (chunk ∷ rest) client)
skip_one id chunk rest client waits safe = elim (Bool-cases (client.session_id == id)) [
  | inr other ↦ (λ same. absurd (ground (arith, same, other)), rw other refl)
  | inl same ↦
      let skipped =
        skip_pointer chunk rest client.next_chunk (ground (arith, same, waits))
          (safe (ground (arith, same))) in
      (λ _. skipped.0, rw same (ap some skipped.1))
]

skip-All :
    (id : ℕ) (chunk : Chunk) (rest : List Chunk) (clients : List Client)
    → any_waits_at id (some chunk.address) clients ≡ false
    → All (IsSafe id (chunk ∷ rest)) clients
    → All (IsSafe id rest) clients
      × (map (queue_of id rest) clients ≡ map (queue_of id (chunk ∷ rest)) clients)
unfolding any_waits_at
skip-All id chunk rest [] nobody safe = (tt, refl)
skip-All id chunk rest (client ∷ clients) nobody safe =
    let one = skip_one id chunk rest client (ground (arith, nobody)) safe.0 in
    let others = skip-All id chunk rest clients (ground (arith, nobody)) safe.1 in
    ((one.0, others.0), ap₂ (λ (q : Option (List Chunk)) qs. q ∷ qs) one.1 others.1)

-- Behind the first chunk, the tail is not the first one.
last_of-above :
    (low high : ℕ) (chunk : Chunk) (rest : List Chunk)
    → Ascending low (chunk ∷ rest) high
    → (address : ℕ) × (last_of (chunk ∷ rest) ≡ some address) × (low ≤ address)
last_of-above low high chunk [] up = (chunk.address, refl, up.0)
last_of-above low high chunk (second ∷ rest) up =
    let found = last_of-above (suc chunk.address) high second rest up.1 in
    (found.0, found.1, omega (arith, found.2, up.0))

IsQueue-skip :
    (low high : ℕ) (chunk : Chunk) (rest : List Chunk) (tail : Option ℕ) (count : ℕ)
    → Ascending low (chunk ∷ rest) high
    → IsQueue (chunk ∷ rest) tail count
    → IsQueue rest
        (if same_pointer tail (some chunk.address) then none else tail)
        ((count + (2 ^ 64 - 1)) % 2 ^ 64)
IsQueue-skip low high chunk [] tail count up queue = record {
  counted = omega (arith, queue.counted);
  bounded = omega arith;
  ends = rw queue.ends (
      if_both (λ t. t ≡ none) (chunk.address == chunk.address) _ _ (λ _. refl)
        (λ ne. absurd (ground (arith, ne))));
}
IsQueue-skip low high chunk (second ∷ rest) tail count up queue =
    let found = last_of-above (suc chunk.address) high second rest up.1 in
    record {
      counted = omega (arith, queue.counted, queue.bounded);
      bounded = omega (arith, queue.bounded);
      ends =
          subst
            (λ t.
              (if same_pointer t (some chunk.address) then none else t) ≡ last_of (second ∷ rest))
            (sym (queue.ends ∙ found.1))
            (if_both (λ t. t ≡ last_of (second ∷ rest)) (found.0 == chunk.address) _ _
              (λ same. absurd (ground (arith, same, found.2))) (λ _. sym found.1));
    }

-- What the loop leaves of a list: a list of which every client of the session has what it had.
pub record IsPruned (id low high : ℕ) (clients : List Client) (chunks : List Chunk)
    (result : List Chunk × Option ℕ × ℕ) : Type 0 where
  pub queue : IsQueue result.0 result.1 result.2
  pub ascending : Ascending low result.0 high
  pub safe : All (IsSafe id result.0) clients
  pub same : map (queue_of id result.0) clients ≡ map (queue_of id chunks) clients
  pub shorter : length result.0 ≤ length chunks
  pub tight : (result.0 ≡ []) ⊎ (any_waits_at id (head_of result.0) clients ≡ true)

Ascending-weaken :
    (low low' high : ℕ) (chunks : List Chunk)
    → low ≤ low'
    → Ascending low' chunks high
    → Ascending low chunks high
Ascending-weaken low low' high [] h up = omega (arith, h, up)
Ascending-weaken low low' high (chunk ∷ rest) h up = (omega (arith, h, up.0), up.1)

pub prune_loop-IsPruned :
    (id low high : ℕ) (clients : List Client) (chunks : List Chunk) (tail : Option ℕ) (count : ℕ)
    → IsQueue chunks tail count
    → Ascending low chunks high
    → All (IsSafe id chunks) clients
    → IsPruned id low high clients chunks (prune_loop id clients chunks tail count)
unfolding prune_loop
prune_loop-IsPruned id low high clients [] tail count queue up safe = record {
  queue = queue;
  ascending = up;
  safe = safe;
  same = refl;
  shorter = omega arith;
  tight = inl refl;
}
prune_loop-IsPruned id low high clients (chunk ∷ rest) tail count queue up safe =
    if_both (IsPruned id low high clients (chunk ∷ rest))
      (any_waits_at id (some chunk.address) clients) _ _
      (λ awaited. record {
        queue = queue;
        ascending = up;
        safe = safe;
        same = refl;
        shorter = omega arith;
        tight = inr awaited;
      })
      λ nobody.
        let skipped = skip-All id chunk rest clients nobody safe in
        let pruned =
          prune_loop-IsPruned id (suc chunk.address) high clients rest _ _
            (IsQueue-skip low high chunk rest tail count up queue) up.1 skipped.0 in
        record {
          queue = pruned.queue;
          ascending =
              Ascending-weaken low (suc chunk.address) high _ (omega (arith, up.0))
                pruned.ascending;
          safe = pruned.safe;
          same = pruned.same ∙ skipped.1;
          shorter = omega (arith, pruned.shorter);
          tight = pruned.tight;
        }

module _ {P D : Type 0} (server : Server P D) (valid : IsValid server) where
  pruned_lem :
      IsPruned server.active_session_id 0 server.next_address server.clients server.chunks (
        prune_loop server.active_session_id server.clients server.chunks server.chunk_tail
          server.chunk_count)
  pruned_lem =
      prune_loop-IsPruned server.active_session_id 0 server.next_address server.clients
        server.chunks server.chunk_tail server.chunk_count valid.queue valid.ascending valid.safe

  -- Pruning a valid server keeps it valid and keeps the queue of every client. No chunk that could go
  -- stays: behind it the list is empty, or a client of the session waits at its first chunk.
  pub prune_chunks-IsValid :
      let pruned = prune_chunks server in
      IsValid pruned
      × (queues pruned ≡ queues server)
      × ((pruned.chunks ≡ [])
          ⊎ (any_waits_at pruned.active_session_id (head_of pruned.chunks) pruned.clients ≡ true))
  unfolding prune_chunks
  prune_chunks-IsValid = (
    record {
      queue = pruned_lem.queue;
      ascending = pruned_lem.ascending;
      safe = pruned_lem.safe;
      known = valid.known;
      started = valid.started;
      numbered = valid.numbered;
      apart = valid.apart;
    },
    pruned_lem.same,
    pruned_lem.tight,
  )

prune_loop-le :
    (id : ℕ) (clients : List Client) (chunks : List Chunk) (tail : Option ℕ) (count : ℕ)
    → length (prune_loop id clients chunks tail count).0 ≤ length chunks
unfolding prune_loop
prune_loop-le id clients [] tail count = omega arith
prune_loop-le id clients (chunk ∷ rest) tail count =
    if_both (λ (r : List Chunk × Option ℕ × ℕ). length r.0 ≤ suc (length rest))
      (any_waits_at id (some chunk.address) clients) _ _ (λ _. omega arith)
      (λ _. omega (arith, prune_loop-le id clients rest _ _))

-- Where nobody waits at the head, a chunk is freed.
pub prune_loop_frees :
    (id : ℕ) (clients : List Client) (chunks : List Chunk) (tail : Option ℕ) (count : ℕ)
    → 0 < length chunks
    → any_waits_at id (head_of chunks) clients ≡ false
    → length (prune_loop id clients chunks tail count).0 < length chunks
unfolding prune_loop
prune_loop_frees id clients [] tail count some_chunk nobody = absurd (omega arith)
prune_loop_frees id clients (chunk ∷ rest) tail count some_chunk nobody =
    if_both (λ (r : List Chunk × Option ℕ × ℕ). length r.0 < suc (length rest))
      (any_waits_at id (some chunk.address) clients) _ _
      (λ somebody. absurd (ground (arith, somebody, nobody)))
      (λ _. omega (arith, prune_loop-le id clients rest _ _))
