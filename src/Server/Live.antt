-- ===== src/Server/Live.antt =====
-- src/stream/server.c: requests, readers with room and memory, and disconnections in any order.
use mpxcast.Prelude.{
  ℕ, ◌+◌, ◌%◌, ◌^◌, ◌≤◌, ◌<◌, ◌≡◌, refl, sym, subst, Bool, true, false, not, ◌&&◌, Option, some,
  List, [], ◌∷◌, arith, ltb, All, if_both, inl, inr,
}
use mpxcast.Http.{Decimal, HttpRequest, HttpDefaults}
use mpxcast.Http.Request.{Parameter}
use mpxcast.Session.{Session, Dsp, Seconds, session_init, configure, refresh_metadata}
use mpxcast.Session.Titles.{IsShort}
use mpxcast.Session.Tuned.{IsTuned, start-IsTuned}
use mpxcast.Server.{
  Client, Server, any_waits_at, stream_buffer_size, clear_chunks, has_current_clients, client_count,
}
use mpxcast.Server.Queue.{IsValid}
use mpxcast.Server.Removing.{remove_client-All}
use mpxcast.Server.Clients.{add_client-IsValid, without, content_free-IsValid}
use mpxcast.Server.Steady.{Plays, IsSteady, prune_chunks-IsSteady}
use mpxcast.Server.Delivery.{IsDelivered, content_reader-IsDelivered}
use mpxcast.Server.Reach.{
  server_init, server_init-IsValid, start_session-IsValid, handle_request_keeps,
}
use mpxcast.Server.Reader.{
  Outcome, bytes, end_of_stream, end_with_error, produced, freed_chunk_read, waits, content_reader,
  content_free,
}
use mpxcast.Server.Request.{
  request_matches_session, settings_of, add_client, activate, start_session, open_stream,
  handle_request,
}

-- No client is of the next session.
nobody-Plays :
    (id next : ℕ) (on : Bool) (clients : List Client)
    → id < next
    → All (λ (client : Client). client.session_id ≤ id) clients
    → All (Plays next on) clients
nobody-Plays id next on [] later known = tt
nobody-Plays id next on (client ∷ clients) later known = (
  λ current. absurd (omega (arith, current, later, known.0)),
  nobody-Plays id next on clients later known.1,
)

module _ {P D : Type 0} where
  add_client-IsSteady :
      (s : Server P D) (method url : List ℕ) (request : HttpRequest D)
      → IsSteady s
      → s.session_active ≡ true
      → IsSteady (add_client method url request s)
  unfolding add_client any_waits_at
  add_client-IsSteady s method url request steady active =
      let tuned = steady.tuned active in
      record {
        valid =
            (add_client-IsValid s method url request steady.valid (steady.valid.numbered active)).0;
        tuned = steady.tuned;
        full = steady.full;
        plays = λ _. ((λ _ on. (on, tuned.due_pos, tuned.due_le)), steady.plays active);
        tight = elim steady.tight [
          | inl nothing ↦ inl nothing
          | inr awaited ↦ inr (ground (arith, awaited))
        ];
      }

  content_free-IsSteady :
      (address : ℕ) (s : Server P D) → IsSteady s → IsSteady (content_free address s)
  unfolding content_free clear_chunks has_current_clients
  content_free-IsSteady address s steady =
      let left = without address s in
      let id = s.active_session_id in
      let plays : left.session_active ≡ true → All (Plays id s.session.icy.enabled) left.clients =
        λ active.
          remove_client-All (Plays id s.session.icy.enabled) address s.clients
            (steady.plays active) in
      if_both (λ (t : Server P D). IsValid t → IsSteady t)
        (left.session_active && not (ltb 0 (client_count left.clients left.active_session_id))) _ _
        (λ _ valid. record {
          valid = valid;
          tuned = λ e. absurd cc;
          full = tt;
          plays = λ e. absurd cc;
          tight = inl refl;
        })
        (λ _ valid. prune_chunks-IsSteady left valid steady.tuned steady.full plays)
        (content_free-IsValid address s steady.valid).0

module _ {P D : Type 0} (dsp : Dsp P D) (short : IsShort dsp) (time : Seconds D) where
  activate-IsSteady :
      (method url : List ℕ) (request : HttpRequest D) (s : Server P D)
      (refreshed : Bool × Session P D)
      → IsSteady s
      → s.active_session_id + 1 < 2 ^ 64
      → refreshed.0 ≡ true
      → IsTuned refreshed.1
      → IsValid (activate request (clear_chunks s) refreshed).1
      → IsSteady (open_stream method url request (activate request (clear_chunks s) refreshed)).1
  unfolding clear_chunks
  activate-IsSteady method url request s (false, session) steady fits done tuned valid = absurd cc
  activate-IsSteady method url request s (true, session) steady fits done tuned valid =
      let next = (s.active_session_id + 1) % 2 ^ 64 in
      add_client-IsSteady (activate request (clear_chunks s) (true, session)).1 method url request
        (record {
          valid = valid;
          tuned = λ _. tuned;
          full = tt;
          plays = λ _.
              nobody-Plays s.active_session_id next session.icy.enabled s.clients
                (omega (arith, fits)) steady.valid.known;
          tight = inl refl;
        })
        refl

  start_session-IsSteady :
      (method url : List ℕ) (request : HttpRequest D) (s : Server P D)
      → IsSteady s
      → s.active_session_id + 1 < 2 ^ 64
      → IsSteady (open_stream method url request (start_session dsp time request s)).1
  start_session-IsSteady method url request s steady fits =
      let tuned = start-IsTuned dsp short time (settings_of request) in
      let started = start_session-IsValid dsp time short request s steady.valid fits in
      unfold start_session in
      activate-IsSteady method url request s
        (refresh_metadata dsp (configure dsp (session_init dsp time) (settings_of request))) steady
        fits tuned.0 tuned.1 started.1

-- As a step of the server, where a reader has memory for a chunk and room for 32768 bytes.
pub data LiveStep {P D : Type 0} (dsp : Dsp P D) (time : Seconds D) (decimal : Decimal D)
    (print_mhz : ℕ → List ℕ) (s t : Server P D) : Type 0 where
  requested :
      (first_call has_upload allocated tuned : Bool) (method url : List ℕ)
      (icy_metadata : Option (List ℕ)) (defaults : HttpDefaults D)
      (lookup : Parameter → Option (List ℕ))
      → s.active_session_id + 1 < 2 ^ 64
      → t
        ≡ (handle_request dsp time decimal print_mhz first_call has_upload allocated tuned method
            url icy_metadata defaults lookup s).1
      → LiveStep dsp time decimal print_mhz s t
  read :
      (is_debug : Bool) (now later : D) (max address : ℕ) (outcome : Outcome D)
      → stream_buffer_size ≤ max
      → content_reader dsp time is_debug true now later max address s ≡ some (outcome, t)
      → LiveStep dsp time decimal print_mhz s t
  freed : (address : ℕ) → t ≡ content_free address s → LiveStep dsp time decimal print_mhz s t

pub data Live {P D : Type 0} (dsp : Dsp P D) (time : Seconds D) (decimal : Decimal D)
    (print_mhz : ℕ → List ℕ) (start : Server P D) : Server P D → Type 0 where
  here : Live dsp time decimal print_mhz start start
  next :
      {s t : Server P D}
      → Live dsp time decimal print_mhz start s
      → LiveStep dsp time decimal print_mhz s t
      → Live dsp time decimal print_mhz start t

module _ {P D : Type 0} where
  left-IsSteady :
      (outcome : Outcome D) (t : Server P D) → IsDelivered (some (outcome, t)) → IsSteady t
  left-IsSteady (bytes sent) t steady = steady
  left-IsSteady end_of_stream t steady = steady
  left-IsSteady produced t steady = steady
  left-IsSteady (waits delay) t steady = steady
  left-IsSteady end_with_error t never = absurd never
  left-IsSteady freed_chunk_read t never = absurd never

  server_init-IsSteady :
      (session : Session P D) (request : HttpRequest D) → IsSteady (server_init session request)
  server_init-IsSteady session request = record {
    valid = server_init-IsValid session request;
    tuned = λ e. absurd cc;
    full = tt;
    plays = λ e. absurd cc;
    tight = inl refl;
  }

module _ {P D : Type 0} (dsp : Dsp P D) (time : Seconds D) (short : IsShort dsp)
    (decimal : Decimal D) (print_mhz : ℕ → List ℕ) where
  LiveStep-IsSteady :
      (s t : Server P D) → LiveStep dsp time decimal print_mhz s t → IsSteady s → IsSteady t
  LiveStep-IsSteady s t
        (requested first_call has_upload allocated tuned method url icy_metadata defaults lookup
          fits e)
        steady =
      subst IsSteady (sym e) (
        handle_request_keeps dsp time short decimal print_mhz IsSteady s steady
          (λ method url request same.
            add_client-IsSteady s method url request steady
              (unfold request_matches_session in ground (arith, same)))
          (λ method url request.
            start_session-IsSteady dsp short time method url request s steady fits)
          first_call has_upload allocated tuned method url icy_metadata defaults lookup)
  LiveStep-IsSteady s t (read is_debug now later max address outcome wide e) steady =
      left-IsSteady outcome t (
        subst IsDelivered e
          (content_reader-IsDelivered dsp short time is_debug now later max address s steady wide))
  LiveStep-IsSteady s t (freed address e) steady =
      subst IsSteady (sym e) (content_free-IsSteady address s steady)

  Live-IsSteady :
      {start s : Server P D} → IsSteady start → Live dsp time decimal print_mhz start s → IsSteady s
  Live-IsSteady begin here = begin
  Live-IsSteady begin (next {s} {t} reached step) =
      LiveStep-IsSteady s t step (Live-IsSteady begin reached)

  -- With a radiotext of at most 64 characters, after any sequence of requests, disconnections and
  -- steps of readers from the start of the server, in which readers have memory for a chunk and
  -- room for 32768 bytes: such a step of a reader, for any address, returns within the rounds of
  -- its loops, and it neither ends with an error nor reads a chunk that was freed. It gives bytes
  -- or the end of the stream, makes a chunk, or waits for the clock.
  pub Live-IsDelivered :
      (session : Session P D) (request : HttpRequest D) (s : Server P D) (is_debug : Bool)
      (now later : D) (max address : ℕ)
      → Live dsp time decimal print_mhz (server_init session request) s
      → stream_buffer_size ≤ max
      → IsDelivered (content_reader dsp time is_debug true now later max address s)
  Live-IsDelivered session request s is_debug now later max address reached wide =
      content_reader-IsDelivered dsp short time is_debug now later max address s
        (Live-IsSteady (server_init-IsSteady session request) reached) wide
