-- ===== src/Server/Handing.antt =====
-- src/stream/server.c: a chunk at the end of the list, and the clients that it is handed to.
use mpxcast.Prelude.{
  ℕ, suc, ◌+◌, ◌≤◌, ◌<◌, ◌≡◌, refl, sym, ap, ap₂, ◌∙◌, true, false, Option, none, some, List, [],
  ◌∷◌, ◌++◌, map, arith, ◌==◌, if◌then◌else◌, All, if_both, Bool-cases, inl, inr,
}
use mpxcast.Server.{Chunk, Client, waits_at, same_pointer, hand_chunk}
use mpxcast.Server.Queue.{
  from_pointer, queue_of, has_address, Points, IsSafe, Ascending, Descending, last_of,
}

-- A client of the session gets the chunk behind all that it waits for.
abbrev pub add_last : Chunk → Option (List Chunk) → Option (List Chunk)
add_last chunk none = none
add_last chunk (some queue) = some (queue ++ (chunk ∷ []))

pub last_of-append :
    (chunks : List Chunk) (chunk : Chunk) → last_of (chunks ++ (chunk ∷ [])) ≡ some chunk.address
last_of-append [] chunk = refl
last_of-append (first ∷ []) chunk = refl
last_of-append (first ∷ second ∷ rest) chunk = last_of-append (second ∷ rest) chunk

pub Ascending-append :
    (low high : ℕ) (chunks : List Chunk) (chunk : Chunk)
    → chunk.address ≡ high
    → Ascending low chunks high
    → Ascending low (chunks ++ (chunk ∷ [])) (high + 1)
Ascending-append low high [] chunk at_end up = (omega (arith, up, at_end), omega (arith, at_end))
Ascending-append low high (first ∷ rest) chunk at_end up =
    (up.0, Ascending-append (suc first.address) high rest chunk at_end up.1)

-- An address beyond all chunks is found at the new one.
from_new :
    (low high : ℕ) (chunks : List Chunk) (chunk : Chunk)
    → chunk.address ≡ high
    → Ascending low chunks high
    → from_pointer (chunks ++ (chunk ∷ [])) (some high) ≡ chunk ∷ []
unfolding from_pointer
from_new low high [] chunk at_end up =
    if_both (λ (q : List Chunk). q ≡ chunk ∷ []) (chunk.address == high) _ _ (λ _. refl)
      (λ ne. absurd (ground (arith, ne, at_end)))
from_new low high (first ∷ rest) chunk at_end up =
    if_both (λ (q : List Chunk). q ≡ chunk ∷ []) (first.address == high) _ _
      (λ same. absurd (ground (arith, same, below (suc first.address) rest up.1)))
      (λ _. from_new (suc first.address) high rest chunk at_end up.1)
  where
    below : (l : ℕ) (cs : List Chunk) → Ascending l cs high → l ≤ high
    below l [] h = h
    below l (c ∷ cs) h = omega (arith, h.0, below (suc c.address) cs h.1)

from_old :
    (chunks : List Chunk) (chunk : Chunk) (address : ℕ)
    → has_address chunks address ≡ true
    → from_pointer (chunks ++ (chunk ∷ [])) (some address)
      ≡ from_pointer chunks (some address) ++ (chunk ∷ [])
unfolding from_pointer has_address
from_old [] chunk address found = absurd cc
from_old (first ∷ rest) chunk address found =
    if_both
      (λ (q : List Chunk).
        (if first.address == address
          then first ∷ (rest ++ (chunk ∷ []))
          else from_pointer (rest ++ (chunk ∷ [])) (some address))
        ≡ q ++ (chunk ∷ []))
      (first.address == address) _ _
      (λ here.
        if_both (λ (q : List Chunk). q ≡ first ∷ (rest ++ (chunk ∷ []))) (first.address == address)
          _ _ (λ _. refl) (λ ne. absurd (ground (arith, ne, here))))
      λ ne.
        if_both (λ (q : List Chunk). q ≡ from_pointer rest (some address) ++ (chunk ∷ []))
          (first.address == address) _ _ (λ here. absurd (ground (arith, ne, here)))
          (λ _. from_old rest chunk address (ground (arith, found, ne)))

has_old :
    (chunks : List Chunk) (chunk : Chunk) (address : ℕ)
    → has_address chunks address ≡ true
    → has_address (chunks ++ (chunk ∷ [])) address ≡ true
unfolding has_address
has_old [] chunk address found = absurd cc
has_old (first ∷ rest) chunk address found = elim (Bool-cases (has_address rest address)) [
  | inl later ↦ let still = has_old rest chunk address later in ground (arith, still)
  | inr not_later ↦ ground (arith, found, not_later)
]

has_new :
    (chunks : List Chunk) (chunk : Chunk) (address : ℕ)
    → chunk.address ≡ address
    → has_address (chunks ++ (chunk ∷ [])) address ≡ true
unfolding has_address
has_new [] chunk address same = ground (arith, same)
has_new (first ∷ rest) chunk address same =
    let later = has_new rest chunk address same in ground (arith, later)

-- The new chunk stands behind all others.
module _ (id high : ℕ) (chunks : List Chunk) (chunk : Chunk) (at_end : chunk.address ≡ high)
    (up : Ascending 0 chunks high) where
  abbrev pub handed : Client → Client
  handed = hand_chunk id chunk.address

  pointer_append :
      (pointer : Option ℕ)
      → Points chunks pointer
      → same_pointer pointer none ≡ false
      → Points (chunks ++ (chunk ∷ [])) pointer
        × (from_pointer (chunks ++ (chunk ∷ [])) pointer
            ≡ from_pointer chunks pointer ++ (chunk ∷ []))
  pointer_append none points somewhere = absurd cc
  pointer_append (some address) points somewhere =
      (has_old chunks chunk address points, from_old chunks chunk address points)

  from_none :
      (pointer : Option ℕ) → same_pointer pointer none ≡ true → from_pointer chunks pointer ≡ []
  unfolding from_pointer
  from_none none waits = refl
  from_none (some address) waits = absurd cc

  handed_one :
      (client : Client)
      → IsSafe id chunks client
      → IsSafe id (chunks ++ (chunk ∷ [])) (handed client)
        × (queue_of id (chunks ++ (chunk ∷ [])) (handed client)
            ≡ add_last chunk (queue_of id chunks client))
  handed_one client safe = elim (Bool-cases (client.session_id == id)) [
    | inr other ↦
        if_both
          (λ c.
            IsSafe id (chunks ++ (chunk ∷ [])) c
            × (queue_of id (chunks ++ (chunk ∷ [])) c ≡ add_last chunk (queue_of id chunks client)))
          (waits_at id none client) _ _ (λ waits. absurd (ground (arith, waits, other)))
          (λ _. (λ same. absurd (ground (arith, same, other)), rw other refl))
    | inl same ↦
        if_both
          (λ c.
            IsSafe id (chunks ++ (chunk ∷ [])) c
            × (queue_of id (chunks ++ (chunk ∷ [])) c ≡ add_last chunk (queue_of id chunks client)))
          (waits_at id none client) _ _
          (λ waits. (
            λ _. has_new chunks chunk chunk.address refl,
            rw same (
                ap some (
                  ap (λ a. from_pointer (chunks ++ (chunk ∷ [])) (some a)) at_end
                  ∙ from_new 0 high chunks chunk at_end up
                  ∙ ap (λ q. q ++ (chunk ∷ []))
                      (sym (from_none client.next_chunk (ground (arith, waits, same)))))),
          ))
          λ stays.
            let moved =
              pointer_append client.next_chunk (safe (ground (arith, same)))
                (ground (arith, same, stays)) in
            (λ _. moved.0, rw same (ap some moved.1))
  ]

  pub handed-All :
      (clients : List Client)
      → All (IsSafe id chunks) clients
      → All (IsSafe id (chunks ++ (chunk ∷ []))) (map handed clients)
        × (map (queue_of id (chunks ++ (chunk ∷ []))) (map handed clients)
            ≡ map (add_last chunk) (map (queue_of id chunks) clients))
  handed-All [] safe = (tt, refl)
  handed-All (client ∷ clients) safe =
      let one = handed_one client safe.0 in
      let others = handed-All clients safe.1 in
      ((one.0, others.0), ap₂ (λ (q : Option (List Chunk)) qs. q ∷ qs) one.1 others.1)

  pub handed-known :
      (clients : List Client)
      → All (λ (client : Client). client.session_id ≤ id) clients
      → All (λ (client : Client). client.session_id ≤ id) (map handed clients)
  handed-known [] known = tt
  handed-known (client ∷ clients) known = (
    if_both (λ (c : Client). c.session_id ≤ id) (waits_at id none client) _ _ (λ _. known.0)
        (λ _. known.0),
    handed-known clients known.1,
  )

  pub handed-apart :
      (top : ℕ) (clients : List Client)
      → Descending top clients
      → Descending top (map handed clients)
  handed-apart top [] apart = tt
  handed-apart top (client ∷ clients) apart =
      if_both (λ (c : Client). (c.address < top) × Descending c.address (map handed clients))
        (waits_at id none client) _ _ (λ _. (apart.0, handed-apart client.address clients apart.1))
        (λ _. (apart.0, handed-apart client.address clients apart.1))

pub Descending-weaken :
    (low high : ℕ) (clients : List Client)
    → low ≤ high
    → Descending low clients
    → Descending high clients
Descending-weaken low high [] h apart = tt
Descending-weaken low high (client ∷ clients) h apart = (omega (arith, h, apart.0), apart.1)
