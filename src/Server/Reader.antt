-- ===== src/Server/Reader.antt =====
-- src/stream/server.c: `stream_content_reader`, which gives a connection its next bytes, and
-- `stream_content_free` at its end. A step of the reader is what it does between two waits or
-- under one hold of the lock.
use mpxcast.Prelude.{
  ℕ, Bool, true, false, not, ◌&&◌, ◌||◌, Option, none, some, List, [], ◌∷◌, ltb, ◌==◌,
  if◌then◌else◌, length,
}
use mpxcast.Session.{Dsp, Seconds, start_clock, compute_audio_delay}
use mpxcast.Server.{
  Chunk, Client, Server, next_of, chunk_at, prune_chunks, clear_chunks, has_current_clients,
  produce_chunk, client_prelude, pack_chunk,
}

unfoldable pub client_at : List Client → ℕ → Option Client
client_at [] address = none
client_at (client ∷ rest) address =
    let found = client_at rest address in if client.address == address then some client else found

-- What is written to the client at its address.
unfoldable pub put_client : Client → List Client → List Client
put_client stream [] = []
put_client stream (client ∷ rest) =
    let others = put_client stream rest in
    if client.address == stream.address then stream ∷ rest else client ∷ others

-- The loop over the list that takes one client out.
unfoldable pub remove_client : ℕ → List Client → List Client
remove_client address [] = []
remove_client address (client ∷ rest) =
    let others = remove_client address rest in
    if client.address == address then rest else client ∷ others

-- The result of a step: bytes for the connection, the two ends, the loop's next round behind a new
-- chunk or behind a wait of so many seconds, which is no wait unless they are above 0, or the read
-- of a chunk that was freed.
pub data Outcome (D : Type 0) : Type 0 where
  bytes : List ℕ → Outcome D
  end_of_stream end_with_error produced freed_chunk_read : Outcome D
  waits : D → Outcome D

module _ {P D : Type 0} where
  abbrev pub put : Server P D → Client → Server P D
  put server client = record server { clients = put_client client server.clients }

  abbrev pub send_prelude : Server P D → ℕ → Option (List ℕ × Client) → Outcome D × Server P D
  send_prelude server max none = (end_with_error, server)
  send_prelude server max (some (prelude, client)) =
      if ltb max (length prelude)
      then (end_with_error, put server client)
      else (bytes prelude, put server (record client { prelude_pending = false }))

  -- A chunk was packed: its bytes are sent, and chunks that nobody waits for are freed.
  abbrev pub send_packed :
      Server P D → ℕ → Option (Option (List ℕ) × Client) → Option (Outcome D × Server P D)
  send_packed server max none = none
  send_packed server max (some (none, client)) = some (end_with_error, put server client)
  send_packed server max (some (some packed, client)) =
      if ltb max (length packed)
      then some (end_with_error, put server client)
      else some (bytes packed, prune_chunks (put server client))

  abbrev pub read_chunk :
      Server P D → ℕ → Client → ℕ → Option Chunk → Option (Outcome D × Server P D)
  read_chunk server max client address none = some (freed_chunk_read, server)
  read_chunk server max client address (some chunk) = send_packed server max (
      pack_chunk (record client { next_chunk = next_of server.chunks address }) chunk
        server.session.icy)

  abbrev pub keep_produced : Option (Bool × Server P D) → Option (Outcome D × Server P D)
  keep_produced none = none
  keep_produced (some (true, server)) = some (produced, server)
  keep_produced (some (false, server)) = some (end_with_error, server)

-- `now` and `later` are the two readings of the clock.
module _ {P D : Type 0} (dsp : Dsp P D) (time : Seconds D) (is_debug allocated : Bool)
    (now later : D) where
  -- Without a chunk the client makes one, when the clock says so.
  unfoldable pub produce_or_wait : Server P D → Option (Outcome D × Server P D)
  produce_or_wait server =
      let started = record server { session = start_clock server.session now } in
      let delay = compute_audio_delay time started.session later in
      if time.is_due delay
      then keep_produced (produce_chunk dsp is_debug allocated started)
      else some (waits delay, started)

  unfoldable pub read_or_produce :
      ℕ → Server P D → Client → Option ℕ → Option (Outcome D × Server P D)
  unfolding produce_or_wait
  read_or_produce max server client none = produce_or_wait server
  read_or_produce max server client (some address) =
      read_chunk server max client address (chunk_at server.chunks address)

  unfoldable pub read_client : ℕ → Server P D → Client → Option (Outcome D × Server P D)
  unfolding read_or_produce
  read_client max server client =
      if client.prelude_pending
      then some (send_prelude server max (client_prelude client))
      else if not server.session_active || not (server.active_session_id == client.session_id)
      then some (end_of_stream, server)
      else read_or_produce max server client client.next_chunk

  abbrev pub read_found : ℕ → Server P D → Option Client → Option (Outcome D × Server P D)
  read_found max server none = some (end_of_stream, server)
  read_found max server (some client) = read_client max server client

  -- A step for the client at an address, which is in the list until it is freed.
  unfoldable pub content_reader : ℕ → ℕ → Server P D → Option (Outcome D × Server P D)
  content_reader max address server = read_found max server (client_at server.clients address)

module _ {P D : Type 0} where
  unfoldable pub content_free : ℕ → Server P D → Server P D
  content_free address server =
      let left = record server { clients = remove_client address server.clients } in
      if left.session_active && not (has_current_clients left)
      then record (clear_chunks left) { session_active = false }
      else prune_chunks left
