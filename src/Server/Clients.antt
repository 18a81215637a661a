-- ===== src/Server/Clients.antt =====
-- src/stream/server.c: one client of the list is changed, added or taken out.
use mpxcast.Prelude.{
  ℕ, suc, ◌+◌, ◌≤◌, ◌<◌, ◌≡◌, refl, sym, ap, ◌∙◌, subst, true, ◌⊎◌, not, ◌&&◌, none, some, List, [],
  ◌∷◌, map, arith, ltb, ◌==◌, length, All, if_both, Bool-cases, inl, inr,
}
use mpxcast.Http.{HttpRequest}
use mpxcast.Server.{
  prune_chunks, any_waits_at, head_of, Chunk, Client, Server, client_count, clear_chunks,
  has_current_clients,
}
use mpxcast.Server.Queue.{from_pointer, queue_of, queues, IsSafe, Ascending, Descending, IsValid}
use mpxcast.Server.Prune.{prune_chunks-IsValid}
use mpxcast.Server.Reader.{client_at, put_client, remove_client, put, content_free}
use mpxcast.Server.Request.{add_client}
use mpxcast.Server.Removing.{
  others, has_member, remove_client-All, remove_client-apart, length-remove_client-le, no_clients,
  client_at-others, remove_client-others, client_count-has_member,
}

pub client_at-All :
    (Q : Client → Type 0) (clients : List Client) (address : ℕ) (client : Client)
    → client_at clients address ≡ some client
    → All Q clients
    → Q client × (client.address ≡ address)
unfolding client_at
client_at-All Q [] address client found all = absurd cc
client_at-All Q (first ∷ rest) address client found all =
    elim (Bool-cases (first.address == address)) [
      | inl here ↦
          let same : first ≡ client = ground (arith, here, found) in
          (subst Q same all.0, ground (arith, here, ap (λ (c : Client). c.address) same))
      | inr ne ↦ client_at-All Q rest address client (ground (arith, ne, found)) all.1
    ]

pub put_client-All :
    (Q : Client → Type 0) (stream : Client) (clients : List Client)
    → Q stream
    → All Q clients
    → All Q (put_client stream clients)
unfolding put_client
put_client-All Q stream [] good all = tt
put_client-All Q stream (first ∷ rest) good all =
    if_both (All Q) (first.address == stream.address) _ _ (λ _. (good, all.1))
      (λ _. (all.0, put_client-All Q stream rest good all.1))

put_client-apart :
    (high : ℕ) (stream : Client) (clients : List Client)
    → Descending high clients
    → Descending high (put_client stream clients)
unfolding put_client
put_client-apart high stream [] apart = tt
put_client-apart high stream (first ∷ rest) apart =
    if_both (Descending high) (first.address == stream.address) _ _
      (λ same.
        let here : first.address ≡ stream.address = ground (arith, same) in
        (omega (arith, here, apart.0), subst (λ n. Descending n rest) here apart.1))
      (λ _. (apart.0, put_client-apart first.address stream rest apart.1))

length-put_client :
    (stream : Client) (clients : List Client) → length (put_client stream clients) ≡ length clients
unfolding put_client
length-put_client stream [] = refl
length-put_client stream (first ∷ rest) =
    if_both (λ (cs : List Client). length cs ≡ suc (length rest)) (first.address == stream.address)
      _ _ (λ _. refl) (λ _. ap suc (length-put_client stream rest))

-- Where the client's own value stays, all do.
pub map-put_client :
    {A : Type 0} (f : Client → A) (stream client : Client) (clients : List Client)
    → client_at clients stream.address ≡ some client
    → f stream ≡ f client
    → map f (put_client stream clients) ≡ map f clients
unfolding put_client client_at
map-put_client f stream client [] found same = refl
map-put_client f stream client (first ∷ rest) found same =
    if_both (λ (cs : List Client). map f cs ≡ f first ∷ map f rest)
      (first.address == stream.address) _ _
      (λ here.
        let it : first ≡ client = ground (arith, here, found) in
        ap (λ a. a ∷ map f rest) (same ∙ ap f (sym it)))
      (λ ne.
        ap (λ as_. f first ∷ as_)
          (map-put_client f stream client rest (ground (arith, ne, found)) same))

module _ {P D : Type 0} where
  -- A client that is written back with its session and a good pointer.
  pub put-IsValid :
      (s : Server P D) (stream client : Client)
      → IsValid s
      → client_at s.clients stream.address ≡ some client
      → stream.session_id ≡ client.session_id
      → IsSafe s.active_session_id s.chunks stream
      → IsValid (put s stream)
  put-IsValid s stream client valid found same safe = record {
    queue = valid.queue;
    ascending = valid.ascending;
    safe = put_client-All (IsSafe s.active_session_id s.chunks) stream s.clients safe valid.safe;
    known =
        let old =
          client_at-All (λ (c : Client). c.session_id ≤ s.active_session_id) s.clients
            stream.address client found valid.known in
        put_client-All (λ (c : Client). c.session_id ≤ s.active_session_id) stream s.clients
          (omega (arith, same, old.0)) valid.known;
    started = λ h. valid.started (subst (λ n. 0 < n) (length-put_client stream s.clients) h);
    numbered = valid.numbered;
    apart = put_client-apart s.next_address stream s.clients valid.apart;
  }

  pub add_client-IsValid :
      (s : Server P D) (method url : List ℕ) (request : HttpRequest D)
      → IsValid s
      → 0 < s.active_session_id
      → IsValid (add_client method url request s)
        × (queues (add_client method url request s) ≡ some [] ∷ queues s)
  unfolding add_client from_pointer
  add_client-IsValid s method url request valid pos = (
    record {
      queue = valid.queue;
      ascending = up 0 s.chunks valid.ascending;
      safe = (λ _. tt, valid.safe);
      known = (omega arith, valid.known);
      started = λ _. pos;
      numbered = λ _. pos;
      apart = (omega arith, valid.apart);
    },
    if_both (λ q. q ∷ queues s ≡ some [] ∷ queues s) (s.active_session_id == s.active_session_id) _
        _ (λ _. refl) (λ ne. absurd (ground (arith, ne))),
  )
    where
      up :
          (low : ℕ) (chunks : List Chunk)
          → Ascending low chunks s.next_address
          → Ascending low chunks (s.next_address + 1)
      up low [] h = omega (arith, h)
      up low (chunk ∷ rest) h = (h.0, up (suc chunk.address) rest h.1)

module _ {P D : Type 0} where
  abbrev pub without : ℕ → Server P D → Server P D
  without address s = record s { clients = remove_client address s.clients }

  pub without-IsValid : (address : ℕ) (s : Server P D) → IsValid s → IsValid (without address s)
  without-IsValid address s valid = record {
    queue = valid.queue;
    ascending = valid.ascending;
    safe = remove_client-All (IsSafe s.active_session_id s.chunks) address s.clients valid.safe;
    known =
        remove_client-All (λ (c : Client). c.session_id ≤ s.active_session_id) address s.clients
          valid.known;
    started = λ h. valid.started (omega (arith, h, length-remove_client-le address s.clients));
    numbered = valid.numbered;
    apart = remove_client-apart s.next_address address s.clients valid.apart;
  }

  pruned_rest :
      (s : Server P D)
      → ((prune_chunks s).session_active ≡ s.session_active)
        × ((prune_chunks s).clients ≡ s.clients)
  unfolding prune_chunks
  pruned_rest s = (refl, refl)

  -- Freeing the client at an address of a valid server leaves a valid server whose clients are
  -- exactly the ones at other addresses, in their order, so that none is found at this one; they
  -- have the queues that they had. The session runs on exactly when it ran and one of them is of
  -- it, and no chunk that could go stays: the list is empty, or a client of the session waits at
  -- its first chunk.
  pub content_free-IsValid :
      (address : ℕ) (s : Server P D)
      → IsValid s
      → let t = content_free address s in
        let left = others address s.clients in
        IsValid t
        × (t.clients ≡ left)
        × (client_at t.clients address ≡ none)
        × (queues t ≡ map (queue_of s.active_session_id s.chunks) left)
        × (t.session_active ≡ s.session_active && has_member s.active_session_id left)
        × ((t.chunks ≡ []) ⊎ (any_waits_at t.active_session_id (head_of t.chunks) t.clients ≡ true))
  unfolding content_free clear_chunks has_current_clients
  content_free-IsValid address s valid =
      let left = without address s in
      let id = s.active_session_id in
      let ok = without-IsValid address s valid in
      let gone = remove_client-others s.next_address address s.clients valid.apart in
      let stays = s.session_active && has_member id (others address s.clients) in
      let counts : has_member id left.clients ≡ has_member id (others address s.clients) =
        ap (has_member id) gone in
      let counted = client_count-has_member id left.clients in
      let unfound : client_at left.clients address ≡ none =
        ap (λ cs. client_at cs address) gone ∙ client_at-others address s.clients in
      let waits : map (queue_of id s.chunks) left.clients
          ≡ map (queue_of id s.chunks) (others address s.clients) =
        ap (map (queue_of id s.chunks)) gone in
      if_both
        (λ (t : Server P D).
          IsValid t
          × (t.clients ≡ others address s.clients)
          × (client_at t.clients address ≡ none)
          × (queues t ≡ map (queue_of id s.chunks) (others address s.clients))
          × (t.session_active ≡ stays)
          × ((t.chunks ≡ [])
              ⊎ (any_waits_at t.active_session_id (head_of t.chunks) t.clients ≡ true)))
        (left.session_active && not (ltb 0 (client_count left.clients left.active_session_id))) _ _
        (λ ended.
          let nobody = no_clients id s.chunks [] left.clients (ground (arith, ended)) in
          (
            record {
              queue = record { counted = refl; bounded = omega arith; ends = refl };
              ascending = omega arith;
              safe = nobody.0;
              known = ok.known;
              started = ok.started;
              numbered = λ e. cc;
              apart = ok.apart;
            },
            gone,
            unfound,
            nobody.1 ∙ waits,
            ground (arith, ended, counts, counted),
            inl refl,
          ))
        λ goes_on.
          let pruned = prune_chunks-IsValid left ok in
          let rest = pruned_rest left in
          (
            pruned.0,
            rest.1 ∙ gone,
            ap (λ cs. client_at cs address) rest.1 ∙ unfound,
            pruned.1 ∙ waits,
            rest.0 ∙ ground (arith, goes_on, counts, counted),
            pruned.2,
          )
