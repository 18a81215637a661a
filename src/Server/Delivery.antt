-- ===== src/Server/Delivery.antt =====
-- src/stream/server.c: a reader of a running session gets its bytes, and never an error.
use mpxcast.Prelude.{
  ℕ, ◌%◌, ◌≤◌, ◌<◌, ◌≡◌, refl, sym, ap, ◌∙◌, subst, Bool, true, false, not, ◌&&◌, ◌||◌, Option,
  none, some, List, [], ◌∷◌, ◌++◌, arith, ltb, ◌==◌, if◌then◌else◌, length, All, if_both,
  Bool-cases, Option-cases, inl, inr, length-append,
}
use mpxcast.Icy.{IcyMetadata, metaint, icy_bytes_until_next_metadata}
use mpxcast.Http.{StreamMode, mono, stereo, StreamContainer, wav, mpegts}
use mpxcast.MpegTs.{MuxState}
use mpxcast.MpegTs.Mux
use mpxcast.MpegTs.Mux.Whole.{pat-size, pmt-size}
use mpxcast.MpegTs.Tables.{write_pat_packet, write_pmt_packet}
use mpxcast.Wav
use mpxcast.Session.{Session, Dsp, Seconds, prelude_of, start_clock, compute_audio_delay}
use mpxcast.Session.Titles.{IsShort}
use mpxcast.Session.Tuned.{IsTuned}
use mpxcast.Server.{
  Client, Server, same_pointer, waits_at, any_waits_at, stream_buffer_size, client_prelude,
  store_client_prelude,
}
use mpxcast.Server.Queue.{IsValid}
use mpxcast.Server.Clients.{client_at-All, put_client-All}
use mpxcast.Server.Reading.{content_reader-IsRead}
use mpxcast.Server.Steady.{Plays, IsSteady, put-IsSteady, prune_chunks-IsSteady}
use mpxcast.Server.Making.{produce_chunk-IsSteady}
use mpxcast.Server.Reader.{
  client_at, put, Outcome, bytes, end_of_stream, end_with_error, produced, freed_chunk_read, waits,
  send_prelude, keep_produced, produce_or_wait, read_or_produce, read_client, read_found,
  content_reader,
}

-- A step that returned, without an error, and left a steady server.
abbrev pub IsDelivered : {P D : Type 0} → Option (Outcome D × Server P D) → Type 0
IsDelivered none = ⊥
IsDelivered (some (bytes sent, server)) = IsSteady server
IsDelivered (some (end_of_stream, server)) = IsSteady server
IsDelivered (some (produced, server)) = IsSteady server
IsDelivered (some (waits delay, server)) = IsSteady server
IsDelivered (some (end_with_error, server)) = ⊥
IsDelivered (some (freed_chunk_read, server)) = ⊥

-- The first bytes of a client fit, and audio is due behind them before its next title.
record IsBegun (icy : IcyMetadata) (result : Option (List ℕ × IcyMetadata × MuxState))
    : Type 0 where
  prelude : List ℕ
  after : IcyMetadata
  mux : MuxState
  returned : result ≡ some (prelude, after, mux)
  fits : length prelude ≤ stream_buffer_size
  same : after.enabled ≡ icy.enabled
  due :
      icy.enabled ≡ true
      → (0 < after.audio_bytes_until_metadata) × (after.audio_bytes_until_metadata ≤ metaint)

due_after :
    (sent : ℕ) (icy : IcyMetadata)
    → icy.enabled ≡ true
    → let due =
        if icy.enabled
        then icy_bytes_until_next_metadata sent
        else icy.audio_bytes_until_metadata in
      (0 < due) × (due ≤ metaint)
unfolding icy_bytes_until_next_metadata
due_after sent icy on =
    if_both (λ (n : ℕ). (0 < n) × (n ≤ metaint)) icy.enabled _ _
      (λ _.
        if_both (λ (n : ℕ). (0 < n) × (n ≤ metaint)) (sent % metaint == 0) _ _
          (λ _. (omega arith, omega arith)) (λ _. (omega arith, omega arith)))
      (λ off. absurd (ground (arith, on, off)))

prelude_of-IsBegun :
    (mode : StreamMode) (container : StreamContainer) (icy : IcyMetadata) (mux : MuxState)
    → IsBegun icy (prelude_of mode container icy mux stream_buffer_size)
unfolding prelude_of Mux.build_prelude Wav.build_prelude
prelude_of-IsBegun mode mpegts icy mux =
    let pat = write_pat_packet mux in
    let pmt = write_pmt_packet pat.1 in
    record {
      prelude = pat.0 ++ pmt.0;
      after = _;
      mux = pmt.1;
      returned = refl;
      fits = omega (arith, length-append pat.0 pmt.0, pat-size mux, pmt-size pat.1);
      same = refl;
      due = due_after 376 icy;
    }
prelude_of-IsBegun mono wav icy mux = record {
  prelude = Wav.stream_header 1 48000 16;
  after = _;
  mux = mux;
  returned = refl;
  fits = unfold Wav.stream_header in omega arith;
  same = refl;
  due = due_after 44 icy;
}
prelude_of-IsBegun stereo wav icy mux = record {
  prelude = Wav.stream_header 2 48000 16;
  after = _;
  mux = mux;
  returned = refl;
  fits = unfold Wav.stream_header in omega arith;
  same = refl;
  due = due_after 44 icy;
}

-- A client without a chunk waits for a new one.
client_waits :
    (id : ℕ) (clients : List Client) (address : ℕ) (client : Client)
    → client_at clients address ≡ some client
    → client.session_id ≡ id
    → client.next_chunk ≡ none
    → any_waits_at id none clients ≡ true
unfolding client_at any_waits_at
client_waits id [] address client found current nothing = absurd cc
client_waits id (first ∷ rest) address client found current nothing =
    elim (Bool-cases (first.address == address)) [
      | inl here ↦
          let it : first ≡ client = ground (arith, here, found) in
          let waiting : waits_at id none client ≡ true =
            ap (λ p. (client.session_id == id) && same_pointer p none) nothing
            ∙ ground (arith, current) in
          let first_waits : waits_at id none first ≡ true = ap (waits_at id none) it ∙ waiting in
          ap (λ b. b || any_waits_at id none rest) first_waits
      | inr ne ↦
          let later =
            client_waits id rest address client (ground (arith, ne, found)) current nothing in
          ground (arith, later)
    ]

module _ {P D : Type 0} where
  start_clock-same :
      (s : Session P D) (now : D)
      → let t = start_clock s now in (t.icy ≡ s.icy) × (t.pcm_buffer ≡ s.pcm_buffer)
  unfolding start_clock
  start_clock-same s now =
      if_both (λ (t : Session P D). (t.icy ≡ s.icy) × (t.pcm_buffer ≡ s.pcm_buffer))
        (not s.stream_clock_started) _ _ (λ _. (refl, refl)) (λ _. (refl, refl))

  start_clock-IsTuned : (s : Session P D) (now : D) → IsTuned s → IsTuned (start_clock s now)
  unfolding start_clock
  start_clock-IsTuned s now tuned =
      if_both IsTuned (not s.stream_clock_started) _ _
        (λ _. record {
          titled = tuned.titled;
          due_pos = tuned.due_pos;
          due_le = tuned.due_le;
          buffer = tuned.buffer;
        })
        (λ _. tuned)

  -- A steady server when its session's clock starts.
  clock-IsSteady :
      (s : Server P D) (now : D)
      → IsSteady s
      → IsSteady (record s { session = start_clock s.session now })
  clock-IsSteady s now steady = record {
    valid = record {
      queue = steady.valid.queue;
      ascending = steady.valid.ascending;
      safe = steady.valid.safe;
      known = steady.valid.known;
      started = steady.valid.started;
      numbered = steady.valid.numbered;
      apart = steady.valid.apart;
    };
    tuned = λ active. start_clock-IsTuned s.session now (steady.tuned active);
    full = steady.full;
    plays = λ active.
        subst (λ (i : IcyMetadata). All (Plays s.active_session_id i.enabled) s.clients)
          (sym (start_clock-same s.session now).0) (steady.plays active);
    tight = steady.tight;
  }

  send_prelude-IsDelivered :
      (s : Server P D) (client : Client) (max : ℕ)
      → IsSteady s
      → client_at s.clients client.address ≡ some client
      → stream_buffer_size ≤ max
      → IsDelivered (some (send_prelude s max (client_prelude client)))
  unfolding client_prelude
  send_prelude-IsDelivered s client max steady at wide =
      let begun = prelude_of-IsBegun client.mode client.container client.icy client.mpegts_mux in
      let id = s.active_session_id in
      subst (λ built. IsDelivered (some (send_prelude s max (store_client_prelude client built))))
        (sym begun.returned)
        (if_both (λ (r : Outcome D × Server P D). IsDelivered (some r))
          (ltb max (length begun.prelude)) _ _
          (λ long. absurd (ground (arith, long, begun.fits, wide)))
          (λ _. put-IsSteady s _ client steady at refl refl (λ active current on.
            let was : client.icy.enabled ≡ true = sym begun.same ∙ on in
            let own =
              (client_at-All (Plays id s.session.icy.enabled) s.clients client.address client at
                  (steady.plays active)).0
                current was in
            let due = begun.due was in (own.0, due.0, due.1))))

module _ {P D : Type 0} (dsp : Dsp P D) (short : IsShort dsp) (time : Seconds D) (is_debug : Bool)
    (now later : D) where
  -- Without a chunk, one is made, or the reader waits for the clock.
  produce_or_wait-IsDelivered :
      (s : Server P D)
      → IsSteady s
      → s.session_active ≡ true
      → any_waits_at s.active_session_id none s.clients ≡ true
      → IsDelivered (produce_or_wait dsp time is_debug true now later s)
  unfolding produce_or_wait
  produce_or_wait-IsDelivered s steady active hungry =
      let started : Server P D = record s { session = start_clock s.session now } in
      let ready = clock-IsSteady s now steady in
      let (t, made, good) = produce_chunk-IsSteady dsp short is_debug started ready active hungry in
      if_both IsDelivered (time.is_due (compute_audio_delay time started.session later)) _ _
        (λ _. subst (λ r. IsDelivered (keep_produced {D = D} r)) (sym made) good) (λ _. ready)

  -- What a step of a client past its prelude, of the running session, comes to.
  reads_or_produces :
      (max : ℕ) (s : Server P D) (client : Client)
      → client_at s.clients client.address ≡ some client
      → client.prelude_pending ≡ false
      → (not s.session_active || not (s.active_session_id == client.session_id)) ≡ false
      → content_reader dsp time is_debug true now later max client.address s
        ≡ read_or_produce dsp time is_debug true now later max s client client.next_chunk
  unfolding content_reader read_client
  reads_or_produces max s client at past running =
      let rest = read_or_produce dsp time is_debug true now later max s client client.next_chunk in
      ap (read_found dsp time is_debug true now later max s) at
      ∙ if_both (λ r. r ≡ rest) client.prelude_pending _ _
          (λ pending. absurd (ground (arith, pending, past)))
          (λ _.
            if_both (λ r. r ≡ rest)
              (not s.session_active || not (s.active_session_id == client.session_id)) _ _
              (λ ended. absurd (ground (arith, ended, running))) (λ _. refl))

  -- A chunk that waits is delivered, and the client goes on to the next.
  waiting-IsDelivered :
      (max : ℕ) (s : Server P D) (client : Client) (pointer : ℕ)
      → IsSteady s
      → client_at s.clients client.address ≡ some client
      → client.next_chunk ≡ some pointer
      → client.prelude_pending ≡ false
      → s.session_active ≡ true
      → client.session_id ≡ s.active_session_id
      → stream_buffer_size ≤ max
      → IsDelivered (content_reader dsp time is_debug true now later max client.address s)
  waiting-IsDelivered max s client pointer steady at waiting past active current wide =
      let id = s.active_session_id in
      let on_air = s.session.icy.enabled in
      let tuned = steady.tuned active in
      let own =
        (client_at-All (Plays id on_air) s.clients client.address client at (steady.plays active)).0
          current in
      let read =
        content_reader-IsRead dsp time is_debug true now later max s client pointer steady.valid
          steady.full at waiting past active current
          (λ on. let (titles, pos, le) = own on in (pos, le, tuned.titled.announced titles)) wide in
      let after = read.sent.after in
      let plays : Plays id on_air after = λ _ on. elim (Bool-cases client.icy.enabled) [
        | inl was ↦
            let ready = (read.sent.titled was).1 in ((own was).0, ready.due_pos, ready.due_le)
        | inr off ↦ absurd (ground (arith, read.sent.quiet off, on))
      ] in
      subst IsDelivered (sym read.returned) (
        subst IsSteady (sym read.left) (
          prune_chunks-IsSteady (put s after) (subst IsValid read.left read.valid) steady.tuned
            steady.full
            (λ active.
              put_client-All (Plays id on_air) after s.clients plays (steady.plays active))))

  client-IsDelivered :
      (max : ℕ) (s : Server P D) (client : Client)
      → IsSteady s
      → client_at s.clients client.address ≡ some client
      → stream_buffer_size ≤ max
      → IsDelivered (content_reader dsp time is_debug true now later max client.address s)
  client-IsDelivered max s client steady at wide = elim (Bool-cases client.prelude_pending) [
    | inl pending ↦
        unfold content_reader read_client in
        subst (λ c. IsDelivered (read_found dsp time is_debug true now later max s c)) (sym at)
          (if_both IsDelivered client.prelude_pending _ _
            (λ _. send_prelude-IsDelivered s client max steady at wide)
            (λ past. absurd (ground (arith, pending, past))))
    | inr past ↦
        elim (Bool-cases (not s.session_active || not (s.active_session_id == client.session_id))) [
          | inl ended ↦
              unfold content_reader read_client in
              subst (λ c. IsDelivered (read_found dsp time is_debug true now later max s c))
                (sym at)
                (if_both IsDelivered client.prelude_pending _ _
                  (λ pending. absurd (ground (arith, pending, past)))
                  (λ _.
                    if_both IsDelivered
                      (not s.session_active || not (s.active_session_id == client.session_id)) _ _
                      (λ _. steady) (λ running. absurd (ground (arith, ended, running)))))
          | inr running ↦
              let active : s.session_active ≡ true = ground (arith, running) in
              let current : client.session_id ≡ s.active_session_id = ground (arith, running) in
              elim (Option-cases client.next_chunk) [
                | inl nothing ↦
                    subst IsDelivered
                      (sym (
                        reads_or_produces max s client at past running
                        ∙ ap (read_or_produce dsp time is_debug true now later max s client)
                            nothing))
                      (unfold read_or_produce in
                        produce_or_wait-IsDelivered s steady active (
                          client_waits s.active_session_id s.clients client.address client at
                            current nothing))
                | inr (pointer, waiting) ↦
                    waiting-IsDelivered max s client pointer steady at waiting past active current
                      wide
              ]
        ]
  ]

  -- From every steady server, with memory for a chunk and room for 32768 bytes.
  pub content_reader-IsDelivered :
      (max address : ℕ) (s : Server P D)
      → IsSteady s
      → stream_buffer_size ≤ max
      → IsDelivered (content_reader dsp time is_debug true now later max address s)
  content_reader-IsDelivered max address s steady wide =
      elim (Option-cases (client_at s.clients address)) [
        | inl nobody ↦
            unfold content_reader in
            subst (λ c. IsDelivered (read_found dsp time is_debug true now later max s c))
              (sym nobody) steady
        | inr (client, at) ↦
            let here =
              (client_at-All (λ _. Unit {0}) s.clients address client at (all s.clients)).1 in
            subst (λ a. IsDelivered (content_reader dsp time is_debug true now later max a s)) here
              (client-IsDelivered max s client steady (ap (client_at s.clients) here ∙ at) wide)
      ]
    where
      all : (clients : List Client) → All (λ _. Unit {0}) clients
      all [] = tt
      all (client ∷ clients) = (tt, all clients)
