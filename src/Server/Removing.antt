-- ===== src/Server/Removing.antt =====
-- src/stream/server.c: a client is taken out of the list.
use mpxcast.Prelude.{
  ℕ, suc, ◌≤◌, ◌≡◌, refl, sym, ap, ap₂, Bool, false, if◌then◌else◌, ◌||◌, Option, none, List, [],
  ◌∷◌, map, arith, ltb, ◌==◌, length, All, if_both, Bool-cases, inl, inr,
}
use mpxcast.Server.{Chunk, Client, client_count}
use mpxcast.Server.Queue.{queue_of, IsSafe, Descending}
use mpxcast.Server.Reader.{client_at, remove_client}

pub remove_client-All :
    (Q : Client → Type 0) (address : ℕ) (clients : List Client)
    → All Q clients
    → All Q (remove_client address clients)
unfolding remove_client
remove_client-All Q address [] all = tt
remove_client-All Q address (first ∷ rest) all =
    if_both (All Q) (first.address == address) _ _ (λ _. all.1)
      (λ _. (all.0, remove_client-All Q address rest all.1))

lower :
    (low high : ℕ) (clients : List Client)
    → low ≤ high
    → Descending low clients
    → Descending high clients
lower low high [] h apart = tt
lower low high (client ∷ clients) h apart = (omega (arith, h, apart.0), apart.1)

pub remove_client-apart :
    (high address : ℕ) (clients : List Client)
    → Descending high clients
    → Descending high (remove_client address clients)
unfolding remove_client
remove_client-apart high address [] apart = tt
remove_client-apart high address (first ∷ rest) apart =
    if_both (Descending high) (first.address == address) _ _
      (λ _. lower first.address high rest (omega (arith, apart.0)) apart.1)
      (λ _. (apart.0, remove_client-apart first.address address rest apart.1))

pub length-remove_client-le :
    (address : ℕ) (clients : List Client) → length (remove_client address clients) ≤ length clients
unfolding remove_client
length-remove_client-le address [] = omega arith
length-remove_client-le address (first ∷ rest) =
    if_both (λ (cs : List Client). length cs ≤ suc (length rest)) (first.address == address) _ _
      (λ _. omega arith) (λ _. omega (arith, length-remove_client-le address rest))

-- Without a client of the session, the list of chunks does not matter.
pub no_clients :
    (id : ℕ) (chunks chunks' : List Chunk) (clients : List Client)
    → client_count clients id ≡ 0
    → All (IsSafe id chunks') clients
      × (map (queue_of id chunks') clients ≡ map (queue_of id chunks) clients)
unfolding client_count
no_clients id chunks chunks' [] nobody = (tt, refl)
no_clients id chunks chunks' (client ∷ clients) nobody =
    elim (Bool-cases (client.session_id == id)) [
      | inl same ↦ absurd (ground (arith, same, nobody))
      | inr other ↦
          let others = no_clients id chunks chunks' clients (ground (arith, other, nobody)) in
          (
            (λ same. absurd (ground (arith, same, other)), others.0),
            ap₂ (λ (q : Option (List Chunk)) qs. q ∷ qs) (rw other refl) others.1,
          )
    ]

-- The clients that are at other addresses.
abbrev pub others : ℕ → List Client → List Client
others address [] = []
others address (client ∷ clients) =
    let later = others address clients in
    if client.address == address then later else client ∷ later

abbrev pub has_member : ℕ → List Client → Bool
has_member session_id [] = false
has_member session_id (client ∷ clients) =
    (client.session_id == session_id) || has_member session_id clients

pub client_at-others :
    (address : ℕ) (clients : List Client) → client_at (others address clients) address ≡ none
unfolding client_at
client_at-others address [] = refl
client_at-others address (client ∷ clients) =
    if_both (λ (cs : List Client). client_at cs address ≡ none) (client.address == address) _ _
      (λ _. client_at-others address clients)
      (λ ne. ground (arith, ne, client_at-others address clients))

-- Behind a client, all addresses are lower.
others_below :
    (high address : ℕ) (clients : List Client)
    → high ≤ address
    → Descending high clients
    → others address clients ≡ clients
others_below high address [] h apart = refl
others_below high address (client ∷ clients) h apart =
    if_both (λ (cs : List Client). cs ≡ client ∷ clients) (client.address == address) _ _
      (λ same. absurd (ground (arith, same, h, apart.0)))
      (λ _.
        ap (λ cs. client ∷ cs)
          (others_below client.address address clients (omega (arith, h, apart.0)) apart.1))

-- The loop takes out the one client at the address.
pub remove_client-others :
    (high address : ℕ) (clients : List Client)
    → Descending high clients
    → remove_client address clients ≡ others address clients
unfolding remove_client
remove_client-others high address [] apart = refl
remove_client-others high address (client ∷ clients) apart =
    elim (Bool-cases (client.address == address)) [
      | inl here ↦
          rw here (sym (others_below client.address address clients (ground (arith, here)) apart.1))
      | inr ne ↦ rw ne (
          ap (λ (cs : List Client). client ∷ cs)
            (remove_client-others client.address address clients apart.1))
    ]

pub client_count-has_member :
    (session_id : ℕ) (clients : List Client)
    → ltb 0 (client_count clients session_id) ≡ has_member session_id clients
unfolding client_count
client_count-has_member session_id [] = refl
client_count-has_member session_id (client ∷ clients) =
    let later = client_count-has_member session_id clients in
    elim (Bool-cases (client.session_id == session_id)) [
      | inl same ↦ ground (arith, same)
      | inr other ↦ ground (arith, other, later)
    ]
