-- ===== src/Server/Dropping.antt =====
-- src/stream/server.c: dropping the clients that lag a full buffer.
use mpxcast.Prelude.{
  ℕ, suc, ◌≤◌, ◌<◌, ◌≡◌, refl, sym, ap, ap₂, ◌∙◌, true, false, ◌||◌, Option, none, some, List, [],
  ◌∷◌, map, arith, ◌==◌, if◌then◌else◌, length, All, if_both,
}
use mpxcast.Server.{
  Chunk, Client, waits_at, any_waits_at, same_pointer, drop_slow, max_buffered_chunks, head_of,
}
use mpxcast.Server.Queue.{from_pointer, queue_of, IsSafe, Descending}

-- A client that lags the whole buffer leaves the session; the others keep their queues.
abbrev pub drop_full : Option (List Chunk) → Option (List Chunk)
drop_full none = none
drop_full (some queue) = if length queue == max_buffered_chunks then none else some queue

from_pointer-le :
    (chunks : List Chunk) (pointer : Option ℕ)
    → length (from_pointer chunks pointer) ≤ length chunks
unfolding from_pointer
from_pointer-le chunks none = omega arith
from_pointer-le [] (some address) = omega arith
from_pointer-le (chunk ∷ rest) (some address) =
    if_both (λ (q : List Chunk). length q ≤ suc (length rest)) (chunk.address == address) _ _
      (λ _. omega arith) (λ _. omega (arith, from_pointer-le rest (some address)))

-- Who waits at the head, and nobody else, waits for all chunks.
waits_for_all :
    (chunk : Chunk) (rest : List Chunk) (pointer : Option ℕ)
    → (length (from_pointer (chunk ∷ rest) pointer) == length (chunk ∷ rest))
      ≡ same_pointer pointer (some chunk.address)
unfolding from_pointer
waits_for_all chunk rest none = ground arith
waits_for_all chunk rest (some address) =
    if_both (λ (q : List Chunk). (length q == suc (length rest)) ≡ (address == chunk.address))
      (chunk.address == address) _ _ (λ here. ground (arith, here))
      (λ elsewhere. ground (arith, elsewhere, from_pointer-le rest (some address)))

module _ (id : ℕ) (chunk : Chunk) (rest : List Chunk) (pos : 0 < id) where
  abbrev pub dropped : Client → Client
  dropped = drop_slow id (some chunk.address)

  drop_slow-queue :
      (client : Client)
      → length (chunk ∷ rest) ≡ max_buffered_chunks
      → queue_of id (chunk ∷ rest) (dropped client) ≡ drop_full (queue_of id (chunk ∷ rest) client)
  drop_slow-queue client full =
      let queue = from_pointer (chunk ∷ rest) client.next_chunk in
      let all = waits_for_all chunk rest client.next_chunk in
      if_both (λ c. queue_of id (chunk ∷ rest) c ≡ drop_full (queue_of id (chunk ∷ rest) client))
        (waits_at id (some chunk.address) client) _ _
        (λ waits.
          if_both (λ q. q ≡ drop_full (queue_of id (chunk ∷ rest) client)) (0 == id) _ _
            (λ zero_id. absurd (ground (arith, zero_id, pos)))
            λ _.
              if_both (λ q. none ≡ drop_full q) (client.session_id == id) _ _
                (λ _.
                  if_both (λ r. none ≡ r) (length queue == max_buffered_chunks) _ _ (λ _. refl)
                    (λ short. absurd (ground (arith, short, full, all, waits))))
                (λ _. refl))
        (λ stays.
          if_both (λ q. q ≡ drop_full q) (client.session_id == id) _ _
            (λ same.
              if_both (λ r. some queue ≡ r) (length queue == max_buffered_chunks) _ _
                (λ long. absurd (ground (arith, long, full, all, same, stays))) (λ _. refl))
            (λ _. refl))

  pub drop_slow-queues :
      (clients : List Client)
      → length (chunk ∷ rest) ≡ max_buffered_chunks
      → map (queue_of id (chunk ∷ rest)) (map dropped clients)
        ≡ map drop_full (map (queue_of id (chunk ∷ rest)) clients)
  drop_slow-queues [] full = refl
  drop_slow-queues (client ∷ clients) full =
      ap₂ (λ (q : Option (List Chunk)) qs. q ∷ qs) (drop_slow-queue client full)
        (drop_slow-queues clients full)

  pub nobody_waits :
      (clients : List Client) → any_waits_at id (some chunk.address) (map dropped clients) ≡ false
  unfolding any_waits_at
  nobody_waits [] = refl
  nobody_waits (client ∷ clients) =
      if_both
        (λ c.
          (waits_at id (some chunk.address) c
            || any_waits_at id (some chunk.address) (map dropped clients))
          ≡ false)
        (waits_at id (some chunk.address) client) _ _
        (λ _. ground (arith, pos, nobody_waits clients))
        (λ stays. ground (arith, stays, nobody_waits clients))

  -- Without a client that waits at the head, the round changes nothing.
  drop_nobody :
      (clients : List Client)
      → any_waits_at id (some chunk.address) clients ≡ false
      → map dropped clients ≡ clients
  unfolding any_waits_at
  drop_nobody [] nobody = refl
  drop_nobody (client ∷ clients) nobody =
      ap₂ (λ (c : Client) cs. c ∷ cs)
        (if_both (λ c. c ≡ client) (waits_at id (some chunk.address) client) _ _
          (λ waits. absurd (ground (arith, waits, nobody))) (λ _. refl))
        (drop_nobody clients (ground (arith, nobody)))

  pub dropped-IsSafe :
      (clients : List Client)
      → All (IsSafe id (chunk ∷ rest)) clients
      → All (IsSafe id (chunk ∷ rest)) (map dropped clients)
  dropped-IsSafe [] safe = tt
  dropped-IsSafe (client ∷ clients) safe = (
    if_both (IsSafe id (chunk ∷ rest)) (waits_at id (some chunk.address) client) _ _
        (λ _ zero_id. absurd (omega (arith, zero_id, pos))) (λ _. safe.0),
    dropped-IsSafe clients safe.1,
  )

  pub dropped-known :
      (clients : List Client)
      → All (λ (client : Client). client.session_id ≤ id) clients
      → All (λ (client : Client). client.session_id ≤ id) (map dropped clients)
  dropped-known [] known = tt
  dropped-known (client ∷ clients) known = (
    if_both (λ (c : Client). c.session_id ≤ id) (waits_at id (some chunk.address) client) _ _
        (λ _. omega arith) (λ _. known.0),
    dropped-known clients known.1,
  )

  pub dropped-apart :
      (high : ℕ) (clients : List Client)
      → Descending high clients
      → Descending high (map dropped clients)
  dropped-apart high [] apart = tt
  dropped-apart high (client ∷ clients) apart =
      if_both (λ (c : Client). (c.address < high) × Descending c.address (map dropped clients))
        (waits_at id (some chunk.address) client) _ _
        (λ _. (apart.0, dropped-apart client.address clients apart.1))
        (λ _. (apart.0, dropped-apart client.address clients apart.1))

pub any_waits-pos :
    (id : ℕ) (pointer : Option ℕ) (clients : List Client)
    → any_waits_at id pointer clients ≡ true
    → 0 < length clients
unfolding any_waits_at
any_waits-pos id pointer [] somebody = absurd cc
any_waits-pos id pointer (client ∷ clients) somebody = omega arith

pub no_drop :
    (id : ℕ) (chunks : List Chunk) (clients : List Client)
    → length chunks ≡ max_buffered_chunks
    → (0 < length clients → 0 < id)
    → any_waits_at id (head_of chunks) clients ≡ false
    → map (queue_of id chunks) clients ≡ map drop_full (map (queue_of id chunks) clients)
no_drop id [] clients full started nobody = absurd (omega arith)
no_drop id (chunk ∷ rest) [] full started nobody = refl
no_drop id (chunk ∷ rest) (client ∷ clients) full started nobody =
    let pos = started (omega arith) in
    ap (map (queue_of id (chunk ∷ rest)))
      (sym (drop_nobody id chunk rest pos (client ∷ clients) nobody))
    ∙ drop_slow-queues id chunk rest pos (client ∷ clients) full
