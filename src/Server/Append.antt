-- ===== src/Server/Append.antt =====
-- src/stream/server.c: `server_produce_chunk` puts a chunk at the end of every client's queue.
use mpxcast.Prelude.{
  ℕ, ◌+◌, ◌<◌, ◌≡◌, refl, sym, ap, ap₂, ◌∙◌, subst, Bool, true, false, Option, some, List, [], ◌∷◌,
  map, arith, ◌==◌, if◌then◌else◌, length, length-append, length-map, inl, inr, ◌⊎◌,
}
use mpxcast.Session.{Session, Dsp, max_audio_frames_per_chunk}
use mpxcast.Server.{
  fill_chunk, Chunk, Server, append_chunk, produce_filled, produce_in_room, produce_chunk,
  max_buffered_chunks, any_waits_at, head_of,
}
use mpxcast.Server.Queue.{queues, IsValid}
use mpxcast.Server.Room.{make_chunk_room-IsRoomy}
use mpxcast.Server.Dropping.{drop_full}
use mpxcast.Server.Handing.{
  Ascending-append, Descending-weaken, add_last, handed-All, handed-apart, handed-known,
  last_of-append,
}

module _ {P D : Type 0} where
  pub append_chunk-IsValid :
      (s : Server P D) (chunk : Chunk)
      → IsValid s
      → length s.chunks < max_buffered_chunks
      → chunk.address ≡ s.next_address
      → IsValid (append_chunk s chunk)
        × (queues (append_chunk s chunk) ≡ map (add_last chunk) (queues s))
  unfolding append_chunk
  append_chunk-IsValid s chunk valid room at_end =
      let id = s.active_session_id in
      let all =
        handed-All id s.next_address s.chunks chunk at_end valid.ascending s.clients valid.safe in
      (
        record {
          queue = record {
            counted = omega (arith, length-append s.chunks (chunk ∷ []), valid.queue.counted, room);
            bounded = omega (arith, length-append s.chunks (chunk ∷ []), room);
            ends = sym (last_of-append s.chunks chunk);
          };
          ascending = Ascending-append 0 s.next_address s.chunks chunk at_end valid.ascending;
          safe = all.0;
          known =
              handed-known id s.next_address s.chunks chunk at_end valid.ascending s.clients
                valid.known;
          started = λ h. valid.started (subst (λ n. 0 < n) (length-map s.clients _) h);
          numbered = valid.numbered;
          apart = Descending-weaken s.next_address (s.next_address + 1) _ (omega arith) (
              handed-apart id s.next_address s.chunks chunk at_end valid.ascending s.next_address
                s.clients valid.apart);
        },
        all.1,
      )

  -- The chunk that is produced after filling the buffer of a session.
  abbrev pub chunk_of : Server P D → Session P D → Chunk
  chunk_of server session = record {
    address = server.next_address;
    frame_count = max_audio_frames_per_chunk;
    samples = session.pcm_buffer;
  }

  -- The queues of a server once room was made in it.
  abbrev pub roomy_queues : Server P D → List (Option (List Chunk))
  roomy_queues s =
      if length s.chunks == max_buffered_chunks then map drop_full (queues s) else queues s

  -- What producing a chunk leaves, where the session's buffer was filled with the result `filled`: a
  -- valid server, and on success the chunk behind the queues in which room was made.
  pub record IsProduced (s : Server P D) (filled : Bool × Session P D)
      (result : Option (Bool × Server P D)) : Type 0 where
    pub done : Bool
    pub server : Server P D
    pub returned : result ≡ some (done, server)
    pub valid : IsValid server
    pub produced :
        done ≡ true → queues server ≡ map (add_last (chunk_of s filled.1)) (roomy_queues s)
    pub failed :
        done ≡ false
        → (queues server ≡ roomy_queues s)
          × ((filled.0 ≡ false)
              ⊎ ((length s.chunks ≡ max_buffered_chunks)
                  × (any_waits_at s.active_session_id (head_of s.chunks) s.clients ≡ false)))

  produce_filled-IsProduced :
      (s t : Server P D) (filled : Bool × Session P D)
      → IsValid t
      → length t.chunks < max_buffered_chunks
      → t.next_address ≡ s.next_address
      → queues t ≡ roomy_queues s
      → IsProduced s filled (some (produce_filled t filled))
  produce_filled-IsProduced s t (false, session) valid room same made = record {
    done = false;
    server = record t { session = session };
    returned = refl;
    valid = record {
      queue = valid.queue;
      ascending = valid.ascending;
      safe = valid.safe;
      known = valid.known;
      started = valid.started;
      numbered = valid.numbered;
      apart = valid.apart;
    };
    produced = λ e. absurd cc;
    failed = λ _. (made, inl refl);
  }
  produce_filled-IsProduced s t (true, session) valid room same made =
      let appended =
        append_chunk-IsValid (record t { session = session }) (chunk_of t session)
          (record {
            queue = valid.queue;
            ascending = valid.ascending;
            safe = valid.safe;
            known = valid.known;
            started = valid.started;
            numbered = valid.numbered;
            apart = valid.apart;
          })
          room refl in
      record {
        done = true;
        server = append_chunk (record t { session = session }) (chunk_of t session);
        returned = refl;
        valid = appended.0;
        produced = λ _.
            appended.1
            ∙ ap₂
                (λ (n : ℕ) qs.
                  map
                    (add_last (record {
                      address = n;
                      frame_count = max_audio_frames_per_chunk;
                      samples = session.pcm_buffer;
                    }))
                    qs)
                same made;
        failed = λ e. absurd cc;
      }

  -- Producing a chunk at a valid server returns and leaves a valid server. Room is made first; then,
  -- where a chunk is filled, it stands behind all that each client of the session waits for. It fails
  -- only where there is no memory or filling fails, or where the buffer is full and no client waits
  -- for all of it, and then the queues are those in which room was made.
  pub produce_chunk-IsProduced :
      (dsp : Dsp P D) (is_debug allocated : Bool) (s : Server P D)
      → IsValid s
      → IsProduced s
          (fill_chunk dsp is_debug allocated s.session)
          (produce_chunk dsp is_debug allocated s)
  unfolding produce_chunk
  produce_chunk-IsProduced dsp is_debug allocated s valid =
      let roomy = make_chunk_room-IsRoomy s valid in
      subst (IsProduced s (fill s.session)) (sym (ap (produce_in_room fill) roomy.returned)) (
        in_room roomy.roomy roomy.server roomy.valid roomy.kept roomy.room roomy.no_room
          roomy.dropped_clients)
    where
      fill : Session P D → Bool × Session P D
      fill = fill_chunk dsp is_debug allocated

      in_room :
          (roomy : Bool) (t : Server P D)
          → IsValid t
          → (t.session ≡ s.session)
            × (t.next_address ≡ s.next_address)
            × (t.active_session_id ≡ s.active_session_id)
          → (roomy ≡ true → length t.chunks < max_buffered_chunks)
          → (roomy ≡ false
              → (length s.chunks ≡ max_buffered_chunks)
                × (any_waits_at s.active_session_id (head_of s.chunks) s.clients ≡ false))
          → queues t ≡ roomy_queues s
          → IsProduced s (fill s.session) (produce_in_room fill (some (roomy, t)))
      in_room true t ok kept room no_room made =
          subst (λ f. IsProduced s f (produce_in_room fill (some (true, t)))) (ap fill kept.0)
            (produce_filled-IsProduced s t (fill t.session) ok (room refl) kept.1 made)
      in_room false t ok kept room no_room made = record {
        done = false;
        server = t;
        returned = refl;
        valid = ok;
        produced = λ e. absurd cc;
        failed = λ _. (made, inr (no_room refl));
      }
