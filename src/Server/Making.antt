-- ===== src/Server/Making.antt =====
-- src/stream/server.c: a running session can always make its next chunk.
use mpxcast.Prelude.{
  ℕ, ◌<◌, ◌≡◌, ◌⊎◌, inl, inr, refl, sym, ap, ◌∙◌, subst, Bool, true, false, Option, none, some,
  List, [], ◌∷◌, ◌++◌, map, arith, length, All, if_both, Bool-cases, All-append,
}
use mpxcast.Session.{Session, Dsp, note_queued_frames}
use mpxcast.Session.Titles.{IsShort}
use mpxcast.Session.Tuned.{IsTuned, fill_pcm_chunk-IsTuned}
use mpxcast.Server.{
  Chunk, Client, Server, head_of, same_pointer, waits_at, any_waits_at, drop_slow, hand_chunk,
  max_buffered_chunks, prune_chunks, drop_clients, make_chunk_room, append_chunk, fill_chunk,
  produce_filled, produce_in_room, produce_chunk,
}
use mpxcast.Server.Queue.{IsValid}
use mpxcast.Server.Room.{make_chunk_room-IsRoomy}
use mpxcast.Server.Append.{append_chunk-IsValid, chunk_of}
use mpxcast.Server.Packing.{IsFull}
use mpxcast.Server.Steady.{Plays, IsTight, IsSteady, prune_chunks-IsSteady}

-- The same for every client of a list.
map-All :
    (Q : Client → Type 0) (f : Client → Client) (clients : List Client)
    → ((client : Client) → Q client → Q (f client))
    → All Q clients
    → All Q (map f clients)
map-All Q f [] keeps all = tt
map-All Q f (client ∷ clients) keeps all = (keeps client all.0, map-All Q f clients keeps all.1)

-- Where every client that waits at one pointer comes to wait at another, so does one of them.
waits-map :
    (id : ℕ) (p q : Option ℕ) (f : Client → Client) (clients : List Client)
    → ((client : Client) → waits_at id p client ≡ true → waits_at id q (f client) ≡ true)
    → any_waits_at id p clients ≡ true
    → any_waits_at id q (map f clients) ≡ true
unfolding any_waits_at
waits-map id p q f [] keeps somebody = somebody
waits-map id p q f (client ∷ clients) keeps somebody = elim (Bool-cases (waits_at id p client)) [
  | inl here ↦ ground (arith, keeps client here)
  | inr elsewhere ↦
      let later = waits-map id p q f clients keeps (ground (arith, elsewhere, somebody)) in
      ground (arith, later)
]

not_both : (p : Option ℕ) (a : ℕ) → same_pointer p none ≡ true → same_pointer p (some a) ≡ false
not_both none a e = refl
not_both (some b) a e = absurd cc

drop_slow-Plays :
    (id : ℕ) (on : Bool) (head : Option ℕ)
    → 0 < id
    → (client : Client) → Plays id on client
    → Plays id on (drop_slow id head client)
drop_slow-Plays id on head pos client plays =
    if_both (Plays id on) (waits_at id head client) _ _
      (λ _ zero_id. absurd (omega (arith, zero_id, pos))) (λ _. plays)

drop_slow_waits :
    (id a : ℕ) (client : Client)
    → waits_at id none client ≡ true
    → waits_at id none (drop_slow id (some a) client) ≡ true
drop_slow_waits id a client waits =
    let other = not_both client.next_chunk a (ground (arith, waits)) in
    if_both (λ (c : Client). waits_at id none c ≡ true) (waits_at id (some a) client) _ _
      (λ here. absurd (ground (arith, here, other))) (λ _. waits)

hand_chunk-Plays :
    (id : ℕ) (on : Bool) (a : ℕ) (client : Client)
    → Plays id on client
    → Plays id on (hand_chunk id a client)
hand_chunk-Plays id on a client plays =
    if_both (Plays id on) (waits_at id none client) _ _ (λ _. plays) (λ _. plays)

hand_chunk_waits :
    (id a : ℕ) (client : Client)
    → waits_at id none client ≡ true
    → waits_at id (some a) (hand_chunk id a client) ≡ true
hand_chunk_waits id a client waits =
    if_both (λ (c : Client). waits_at id (some a) c ≡ true) (waits_at id none client) _ _
      (λ _. ground (arith, waits)) (λ nobody. absurd (ground (arith, nobody, waits)))

hand_chunk_keeps :
    (id a b : ℕ) (client : Client)
    → waits_at id (some b) client ≡ true
    → waits_at id (some b) (hand_chunk id a client) ≡ true
hand_chunk_keeps id a b client waits =
    if_both (λ (c : Client). waits_at id (some b) c ≡ true) (waits_at id none client) _ _
      (λ nothing.
        let other = not_both client.next_chunk b (ground (arith, nothing)) in
        absurd (ground (arith, waits, other)))
      (λ _. waits)

-- Behind the new chunk, the first chunk is the old one, or the new one where there was none.
appended_tight :
    (id : ℕ) (chunk : Chunk) (chunks : List Chunk) (clients : List Client)
    → any_waits_at id none clients ≡ true
    → (chunks ≡ []) ⊎ (any_waits_at id (head_of chunks) clients ≡ true)
    → any_waits_at id (head_of (chunks ++ (chunk ∷ []))) (map (hand_chunk id chunk.address) clients)
      ≡ true
appended_tight id chunk [] clients hungry tight =
    waits-map id none (some chunk.address) (hand_chunk id chunk.address) clients
      (hand_chunk_waits id chunk.address) hungry
appended_tight id chunk (first ∷ rest) clients hungry (inl nothing) = absurd cc
appended_tight id chunk (first ∷ rest) clients hungry (inr awaited) =
    waits-map id (some first.address) (some first.address) (hand_chunk id chunk.address) clients
      (hand_chunk_keeps id chunk.address first.address) awaited

hungry_map :
    (id : ℕ) (chunks : List Chunk) (clients : List Client)
    → 0 < length chunks
    → any_waits_at id none clients ≡ true
    → any_waits_at id none (map (drop_slow id (head_of chunks)) clients) ≡ true
hungry_map id [] clients some_chunk hungry = absurd (omega (arith, some_chunk))
hungry_map id (chunk ∷ rest) clients some_chunk hungry =
    waits-map id none none (drop_slow id (some chunk.address)) clients
      (drop_slow_waits id chunk.address) hungry

module _ {P D : Type 0} where
  -- Room is made in a running session: it stays steady, and who waited for a new chunk still does.
  drop_clients-IsSteady :
      (s : Server P D)
      → IsSteady s
      → s.session_active ≡ true
      → 0 < length s.chunks
      → any_waits_at s.active_session_id none s.clients ≡ true
      → IsValid (drop_clients s)
      → IsSteady (drop_clients s)
        × (any_waits_at (drop_clients s).active_session_id none (drop_clients s).clients ≡ true)
        × ((drop_clients s).session_active ≡ true)
  unfolding drop_clients
  drop_clients-IsSteady s steady active some_chunk hungry valid =
      let id = s.active_session_id in
      let head = head_of s.chunks in
      let dropped : Server P D = record s { clients = map (drop_slow id head) s.clients } in
      (
        prune_chunks-IsSteady dropped valid steady.tuned steady.full (λ active.
            map-All (Plays id s.session.icy.enabled) (drop_slow id head) s.clients
              (drop_slow-Plays id s.session.icy.enabled head (steady.valid.numbered active))
              (steady.plays active)),
        unfold prune_chunks in hungry_map id s.chunks s.clients some_chunk hungry,
        unfold prune_chunks in active,
      )

  -- A tight server is full only where somebody waits for all of it.
  somebody_waits :
      (s : Server P D)
      → IsTight s
      → length s.chunks ≡ max_buffered_chunks
      → any_waits_at s.active_session_id (head_of s.chunks) s.clients ≡ false
      → ⊥
  somebody_waits s (inl nothing) full nobody =
      omega (arith, full, ap (λ (cs : List Chunk). length cs) nothing)
  somebody_waits s (inr awaited) full nobody = ground (arith, awaited, nobody)

  make_chunk_room-IsSteady :
      (s : Server P D)
      → IsSteady s
      → s.session_active ≡ true
      → any_waits_at s.active_session_id none s.clients ≡ true
      → (t : Server P D) × (make_chunk_room s ≡ some (true, t))
        × IsSteady t
        × (any_waits_at t.active_session_id none t.clients ≡ true)
        × (t.session_active ≡ true)
        × (length t.chunks < max_buffered_chunks)
  make_chunk_room-IsSteady s steady active hungry =
      let made = make_chunk_room-IsRoomy s steady.valid in
      elim (Bool-cases made.roomy) [
        | inr full ↦
            let none_left = made.no_room full in
            absurd (somebody_waits s steady.tight none_left.0 none_left.1)
        | inl roomy ↦
            let returned : make_chunk_room s ≡ some (true, made.server) =
              made.returned ∙ ap (λ r. some (r, made.server)) roomy in
            let Good : Server P D → Type 0 = λ t.
              IsSteady t
              × (any_waits_at t.active_session_id none t.clients ≡ true)
              × (t.session_active ≡ true) in
            let good : Good made.server = elim made.rounds [
              | inl same ↦ subst Good (sym same) (steady, hungry, active)
              | inr (dropped, some_chunk) ↦ subst Good (sym dropped) (
                  drop_clients-IsSteady s steady active some_chunk hungry
                    (subst IsValid dropped made.valid))
            ] in
            (made.server, returned, good.0, good.1, good.2, made.room roomy)
      ]

  append_chunk-IsSteady :
      (t : Server P D) (session : Session P D)
      → IsSteady t
      → t.session_active ≡ true
      → any_waits_at t.active_session_id none t.clients ≡ true
      → length t.chunks < max_buffered_chunks
      → IsTuned session
      → session.icy.enabled ≡ t.session.icy.enabled
      → IsSteady (append_chunk (record t { session = session }) (chunk_of t session))
  unfolding append_chunk note_queued_frames
  append_chunk-IsSteady t session steady active hungry room tuned same =
      let id = t.active_session_id in
      let chunk = chunk_of t session in
      record {
        valid =
            (append_chunk-IsValid (record t { session = session }) chunk
              (record {
                queue = steady.valid.queue;
                ascending = steady.valid.ascending;
                safe = steady.valid.safe;
                known = steady.valid.known;
                started = steady.valid.started;
                numbered = steady.valid.numbered;
                apart = steady.valid.apart;
              })
              room refl).0;
        tuned = λ _. record {
          titled = tuned.titled;
          due_pos = tuned.due_pos;
          due_le = tuned.due_le;
          buffer = tuned.buffer;
        };
        full =
            All-append IsFull t.chunks (chunk ∷ []) steady.full
              (record { frames = refl; samples = tuned.buffer }, tt);
        plays = λ active.
            map-All (Plays id session.icy.enabled) (hand_chunk id chunk.address) t.clients
              (hand_chunk-Plays id session.icy.enabled chunk.address)
              (subst (λ on. All (Plays id on) t.clients) (sym same) (steady.plays active));
        tight = inr (appended_tight id chunk t.chunks t.clients hungry steady.tight);
      }

  filled-IsSteady :
      (t : Server P D) (filled : Bool × Session P D)
      → IsSteady t
      → t.session_active ≡ true
      → any_waits_at t.active_session_id none t.clients ≡ true
      → length t.chunks < max_buffered_chunks
      → filled.0 ≡ true
      → IsTuned filled.1
      → filled.1.icy.enabled ≡ t.session.icy.enabled
      → (u : Server P D) × (produce_filled t filled ≡ (true, u)) × IsSteady u
  filled-IsSteady t (true, session) steady active hungry room done tuned same =
      (_, refl, append_chunk-IsSteady t session steady active hungry room tuned same)
  filled-IsSteady t (false, session) steady active hungry room done tuned same = absurd cc

  -- With memory for it, a chunk is made in every running session in which a client waits for one.
  pub produce_chunk-IsSteady :
      (dsp : Dsp P D)
      → IsShort dsp
      → (is_debug : Bool) (s : Server P D) → IsSteady s
      → s.session_active ≡ true
      → any_waits_at s.active_session_id none s.clients ≡ true
      → (t : Server P D) × (produce_chunk dsp is_debug true s ≡ some (true, t)) × IsSteady t
  unfolding produce_chunk
  produce_chunk-IsSteady dsp short is_debug s steady active hungry =
      let (t, returned, ok, waiting, runs, room) =
        make_chunk_room-IsSteady s steady active hungry in
      let fill = fill_chunk dsp is_debug true in
      let filled = fill_pcm_chunk-IsTuned dsp short is_debug t.session (ok.tuned runs) in
      let (u, produces, good) =
        filled-IsSteady t (fill t.session) ok runs waiting room filled.0 filled.1 filled.2 in
      (u, ap (produce_in_room fill) returned ∙ ap some produces, good)
