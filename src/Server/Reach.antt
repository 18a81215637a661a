-- ===== src/Server/Reach.antt =====
-- src/stream/server.c: requests, readers and disconnections in any order, one hold of the lock each.
use mpxcast.Prelude.{
  ℕ, ◌+◌, ◌%◌, ◌^◌, ◌≤◌, ◌<◌, ◌≡◌, ◌≢◌, refl, sym, ap₂, subst, Bool, true, false, not, ◌&&◌, ◌||◌,
  Option, none, some, List, [], ◌∷◌, map, arith, ◌==◌, All, if_both,
}
use mpxcast.CString.{same_text}
use mpxcast.Http.{
  Decimal, HttpRequest, HttpDefaults, Reply, accepted, method_not_allowed, not_found, bad_request,
  internal_server_error,
}
use mpxcast.Http.Request.{Parameter, parse_request, get_text}
use mpxcast.Session.{Session, Dsp, Seconds, session_init, configure, refresh_metadata}
use mpxcast.Session.Titles.{IsShort, start-IsTitled}
use mpxcast.Server.{Chunk, Client, Server, clear_chunks}
use mpxcast.Server.Queue.{queue_of, queues, IsSafe, IsValid}
use mpxcast.Server.Clients.{add_client-IsValid, content_free-IsValid}
use mpxcast.Server.Steps.{IsFine, content_reader-IsFine}
use mpxcast.Server.Reader.{Outcome, freed_chunk_read, content_reader, content_free}
use mpxcast.Server.Request.{
  Answer, request_matches_session, settings_of, add_client, activate, start_session, open_stream,
  serve_request, serve_reply, is_one, cover_text, handle_request,
}

-- With the next number of a session, no client is of the session.
nobody_yet :
    (id next : ℕ) (chunks : List Chunk) (clients : List Client)
    → id < next
    → All (λ (client : Client). client.session_id ≤ id) clients
    → All (IsSafe next []) clients
      × All (λ (client : Client). client.session_id ≤ next) clients
      × (map (queue_of next []) clients ≡ map (λ (client : Client). none) clients)
nobody_yet id next chunks [] later known = (tt, tt, refl)
nobody_yet id next chunks (client ∷ clients) later known =
    let others = nobody_yet id next chunks clients later known.1 in
    (
      (λ same. absurd (omega (arith, same, later, known.0)), others.0),
      (omega (arith, later, known.0), others.1),
      ap₂ (λ (q : Option (List Chunk)) qs. q ∷ qs)
          (if_both (λ (q : Option (List Chunk)). q ≡ none) (client.session_id == next) _ _
            (λ same. absurd (ground (arith, same, later, known.0))) (λ _. refl))
          others.2,
    )

module _ {P D : Type 0} (dsp : Dsp P D) (time : Seconds D) (short : IsShort dsp) where
  activate-IsValid :
      (request : HttpRequest D) (s : Server P D) (refreshed : Bool × Session P D)
      → IsValid s
      → s.active_session_id + 1 < 2 ^ 64
      → refreshed.0 ≡ true
      → let r = activate request (clear_chunks s) refreshed in
        (r.0 ≡ true)
        × IsValid r.1
        × (0 < r.1.active_session_id)
        × (r.1.chunks ≡ [])
        × (queues r.1 ≡ map (λ (client : Client). none) s.clients)
  unfolding clear_chunks
  activate-IsValid request s (false, session) valid fits done = absurd cc
  activate-IsValid request s (true, session) valid fits done =
      let next = (s.active_session_id + 1) % 2 ^ 64 in
      let nobody =
        nobody_yet s.active_session_id next s.chunks s.clients (omega (arith, fits)) valid.known in
      (
        refl,
        record {
          queue = record { counted = refl; bounded = omega arith; ends = refl };
          ascending = omega arith;
          safe = nobody.0;
          known = nobody.1;
          started = λ _. omega (arith, fits);
          numbered = λ _. omega (arith, fits);
          apart = valid.apart;
        },
        omega (arith, fits),
        refl,
        nobody.2,
      )

  pub start_session-IsValid :
      (request : HttpRequest D) (s : Server P D)
      → IsValid s
      → s.active_session_id + 1 < 2 ^ 64
      → let r = start_session dsp time request s in
        (r.0 ≡ true)
        × IsValid r.1
        × (0 < r.1.active_session_id)
        × (r.1.chunks ≡ [])
        × (queues r.1 ≡ map (λ (client : Client). none) s.clients)
  unfolding start_session
  start_session-IsValid request s valid fits =
      activate-IsValid request s
        (refresh_metadata dsp (configure dsp (session_init dsp time) (settings_of request))) valid
        fits (start-IsTitled dsp short time (settings_of request)).0

  open_stream-IsValid :
      (method url : List ℕ) (request : HttpRequest D) (opened : Bool × Server P D)
      → opened.0 ≡ true
      → IsValid opened.1
      → 0 < opened.1.active_session_id
      → IsValid (open_stream method url request opened).1
        × (0 < (open_stream method url request opened).1.active_session_id)
  unfolding add_client
  open_stream-IsValid method url request (true, t) done valid pos =
      ((add_client-IsValid t method url request valid pos).0, pos)
  open_stream-IsValid method url request (false, t) done valid pos = absurd cc

  -- What a request keeps: it leaves the server, or a client joins the running session, or a session
  -- starts.
  module _ (decimal : Decimal D) (print_mhz : ℕ → List ℕ) (Q : Server P D → Type 0) (s : Server P D)
      (stays : Q s)
      (joins : (method url : List ℕ) (request : HttpRequest D)
        → request_matches_session decimal s request ≡ true
        → Q (add_client method url request s))
      (starts : (method url : List ℕ) (request : HttpRequest D)
        → Q (open_stream method url request (start_session dsp time request s)).1) where
    serve_request_keeps :
        (tuned : Bool) (method url : List ℕ) (request : HttpRequest D)
        → Q (serve_request dsp time decimal print_mhz tuned method url request s).1
    unfolding serve_request
    serve_request_keeps tuned method url request =
        if_both (λ (r : Answer × Server P D). Q r.1) (request_matches_session decimal s request) _ _
          (λ same. joins method url request same)
          λ _.
            if_both (λ (r : Answer × Server P D). Q r.1) (not tuned) _ _ (λ _. stays)
              (λ _. starts method url request)

    serve_reply_keeps :
        (allocated tuned : Bool) (method url : List ℕ) (reply : Reply D)
        → Q (serve_reply dsp time decimal print_mhz allocated tuned method url reply s).1
    serve_reply_keeps allocated tuned method url (accepted request) =
        if_both (λ (r : Answer × Server P D). Q r.1) (not allocated) _ _ (λ _. stays)
          (λ _. serve_request_keeps tuned method url request)
    serve_reply_keeps allocated tuned method url method_not_allowed = stays
    serve_reply_keeps allocated tuned method url not_found = stays
    serve_reply_keeps allocated tuned method url bad_request = stays
    serve_reply_keeps allocated tuned method url internal_server_error = stays

    pub handle_request_keeps :
        (first_call has_upload allocated tuned : Bool) (method url : List ℕ)
        (icy_metadata : Option (List ℕ)) (defaults : HttpDefaults D)
        (lookup : Parameter → Option (List ℕ))
        → Q
            (handle_request dsp time decimal print_mhz first_call has_upload allocated tuned method
              url icy_metadata defaults lookup s).1
    unfolding handle_request
    handle_request_keeps first_call has_upload allocated tuned method url icy_metadata defaults
          lookup =
        if_both (λ (r : Answer × Server P D). Q r.1) (first_call || has_upload) _ _ (λ _. stays)
          λ _.
            if_both (λ (r : Answer × Server P D). Q r.1)
              (same_text method get_text && same_text url cover_text) _ _ (λ _. stays)
              (λ _.
                serve_reply_keeps allocated tuned method url (
                  parse_request decimal print_mhz method url (is_one icy_metadata) defaults lookup))

  handle_request-IsValid :
      (decimal : Decimal D) (print_mhz : ℕ → List ℕ) (first_call has_upload allocated tuned : Bool)
      (method url : List ℕ) (icy_metadata : Option (List ℕ)) (defaults : HttpDefaults D)
      (lookup : Parameter → Option (List ℕ)) (s : Server P D)
      → IsValid s
      → s.active_session_id + 1 < 2 ^ 64
      → IsValid
          (handle_request dsp time decimal print_mhz first_call has_upload allocated tuned method
            url icy_metadata defaults lookup s).1
  handle_request-IsValid decimal print_mhz first_call has_upload allocated tuned method url
        icy_metadata defaults lookup s valid fits =
      handle_request_keeps decimal print_mhz IsValid s valid
        (λ method url request same.
          (add_client-IsValid s method url request valid
            (valid.numbered (unfold request_matches_session in ground (arith, same)))).0)
        (λ method url request.
          let started = start_session-IsValid request s valid fits in
          (open_stream-IsValid method url request (start_session dsp time request s) started.0
            started.1 started.2).0)
        first_call has_upload allocated tuned method url icy_metadata defaults lookup

-- One hold of the lock: a request, a step of a reader, or the end of a connection. Sessions are
-- numbered without wrapping.
pub data Step {P D : Type 0} (dsp : Dsp P D) (time : Seconds D) (decimal : Decimal D)
    (print_mhz : ℕ → List ℕ) (s t : Server P D) : Type 0 where
  requested :
      (first_call has_upload allocated tuned : Bool) (method url : List ℕ)
      (icy_metadata : Option (List ℕ)) (defaults : HttpDefaults D)
      (lookup : Parameter → Option (List ℕ))
      → s.active_session_id + 1 < 2 ^ 64
      → t
        ≡ (handle_request dsp time decimal print_mhz first_call has_upload allocated tuned method
            url icy_metadata defaults lookup s).1
      → Step dsp time decimal print_mhz s t
  read :
      (is_debug allocated : Bool) (now later : D) (max address : ℕ) (outcome : Outcome D)
      → content_reader dsp time is_debug allocated now later max address s ≡ some (outcome, t)
      → Step dsp time decimal print_mhz s t
  freed : (address : ℕ) → t ≡ content_free address s → Step dsp time decimal print_mhz s t

-- The states that steps reach from the server that `server_run` starts with.
pub data Reach {P D : Type 0} (dsp : Dsp P D) (time : Seconds D) (decimal : Decimal D)
    (print_mhz : ℕ → List ℕ) (start : Server P D) : Server P D → Type 0 where
  here : Reach dsp time decimal print_mhz start start
  next :
      {s t : Server P D}
      → Reach dsp time decimal print_mhz start s
      → Step dsp time decimal print_mhz s t
      → Reach dsp time decimal print_mhz start t

-- What `server_run` starts with: no session, no chunks and no clients.
abbrev pub server_init : {P D : Type 0} → Session P D → HttpRequest D → Server P D
server_init session request = record {
  session = session;
  session_request = request;
  active_session_id = 0;
  session_active = false;
  chunks = [];
  chunk_tail = none;
  chunk_count = 0;
  clients = [];
  next_address = 0;
}

pub server_init-IsValid :
    {P D : Type 0} (session : Session P D) (request : HttpRequest D)
    → IsValid (server_init session request)
server_init-IsValid session request = record {
  queue = record { counted = refl; bounded = omega arith; ends = refl };
  ascending = omega arith;
  safe = tt;
  known = tt;
  started = λ h. absurd (omega (arith, h));
  numbered = λ e. cc;
  apart = tt;
}

IsFine-IsValid :
    {P D : Type 0} (result : Option (Outcome D × Server P D)) (outcome : Outcome D) (t : Server P D)
    → result ≡ some (outcome, t)
    → IsFine result
    → IsValid t × (outcome ≢ freed_chunk_read)
IsFine-IsValid result outcome t e fine = subst IsFine e fine

module _ {P D : Type 0} (dsp : Dsp P D) (time : Seconds D) (short : IsShort dsp)
    (decimal : Decimal D) (print_mhz : ℕ → List ℕ) where
  Step-IsValid : (s t : Server P D) → Step dsp time decimal print_mhz s t → IsValid s → IsValid t
  Step-IsValid s t
        (requested first_call has_upload allocated tuned method url icy_metadata defaults lookup
          fits e)
        valid =
      subst IsValid (sym e) (
        handle_request-IsValid dsp time short decimal print_mhz first_call has_upload allocated
          tuned method url icy_metadata defaults lookup s valid fits)
  Step-IsValid s t (read is_debug allocated now later max address outcome e) valid =
      (IsFine-IsValid _ outcome t e
        (content_reader-IsFine dsp time is_debug allocated now later max address s valid)).0
  Step-IsValid s t (freed address e) valid =
      subst IsValid (sym e) (content_free-IsValid address s valid).0

  Reach-IsValid :
      {start s : Server P D} → IsValid start → Reach dsp time decimal print_mhz start s → IsValid s
  Reach-IsValid begin here = begin
  Reach-IsValid begin (next {s} {t} reached step) =
      Step-IsValid s t step (Reach-IsValid begin reached)

  -- After any sequence of requests, reads and disconnections from the start of the server, with
  -- a radiotext of at most 64 characters: no step of a reader reads a chunk that was freed, and the
  -- invariant holds before and after the step.
  pub Reach-reads_safely :
      (session : Session P D) (request : HttpRequest D) (s t : Server P D)
      (is_debug allocated : Bool) (now later : D) (max address : ℕ) (outcome : Outcome D)
      → Reach dsp time decimal print_mhz (server_init session request) s
      → content_reader dsp time is_debug allocated now later max address s ≡ some (outcome, t)
      → (outcome ≢ freed_chunk_read) × IsValid s × IsValid t
  Reach-reads_safely session request s t is_debug allocated now later max address outcome reached
        stepped =
      let valid = Reach-IsValid (server_init-IsValid session request) reached in
      let fine =
        IsFine-IsValid _ outcome t stepped
          (content_reader-IsFine dsp time is_debug allocated now later max address s valid) in
      (fine.1, valid, fine.0)
