-- ===== src/Server.antt =====
-- src/stream/server.c: the chunks of a station that clients share, and the clients. This file has the
-- state and what the functions do under the lock; `Request` has the start of a stream, `Reader`
-- the callback that a client's connection calls.
pub mod Queue
pub mod Prune
pub mod Dropping
pub mod Room
pub mod Handing
pub mod Append
pub mod Removing
pub mod Clients
pub mod Packing
pub mod Reading
pub mod Steps
pub mod Reach
pub mod Steady
pub mod Making
pub mod Delivery
pub mod Live
pub mod Request
pub mod Reader
mod Runs
use mpxcast.Prelude.{
  ℕ, zero, suc, ◌+◌, ◌-◌, ◌^◌, Bool, true, false, not, ◌&&◌, ◌||◌, Option, none, some, List, [],
  ◌∷◌, ◌++◌, map, ltb, leb, ◌==◌, if◌then◌else◌, length, u64,
}
use mpxcast.Icy.{IcyMetadata}
use mpxcast.MpegTs.{MuxState}
use mpxcast.Http.{StreamMode, StreamContainer, HttpRequest}
use mpxcast.Session.{
  Session, Dsp, Packed, body_of, wrap_muxed, prelude_of, fill_pcm_chunk, note_queued_frames,
  max_audio_frames_per_chunk,
}

-- STREAM_BUFFER_SIZE and STREAM_MAX_BUFFERED_CHUNKS
abbrev pub stream_buffer_size : ℕ
stream_buffer_size = 32768

abbrev pub max_buffered_chunks : ℕ
max_buffered_chunks = 256

-- `struct stream_chunk`, at its address. Its `next` is the chunk behind it in the list.
pub record Chunk : Type 0 where
  pub address : ℕ
  pub frame_count : ℕ
  pub samples : List ℕ

-- `struct client_stream`, at its address; `next` is the client behind it in the list, and the
-- buffer is what a function returns.
pub record Client : Type 0 where
  pub address : ℕ
  pub next_chunk : Option ℕ
  pub mpegts_mux : MuxState
  pub icy : IcyMetadata
  pub session_id : ℕ
  pub logged_session_id : ℕ
  pub prelude_pending : Bool
  pub dropped_for_lag : Bool
  pub mode : StreamMode
  pub container : StreamContainer
  pub requested_frequency_hz : ℕ
  pub request_method : List ℕ
  pub request_path : List ℕ
  pub requested_station_name : List ℕ

-- `struct server`. `chunks` is the list from `chunk_head` on, and `next_address` an address that
-- `calloc` has not returned yet.
pub record Server (P D : Type 0) : Type 0 where
  pub session : Session P D
  pub session_request : HttpRequest D
  pub active_session_id : ℕ
  pub session_active : Bool
  pub chunks : List Chunk
  pub chunk_tail : Option ℕ
  pub chunk_count : ℕ
  pub clients : List Client
  pub next_address : ℕ

-- Two pointers are equal.
abbrev pub same_pointer : Option ℕ → Option ℕ → Bool
same_pointer none none = true
same_pointer none (some b) = false
same_pointer (some a) none = false
same_pointer (some a) (some b) = a == b

abbrev pub head_of : List Chunk → Option ℕ
head_of [] = none
head_of (chunk ∷ rest) = some chunk.address

-- `chunk->next`, of the chunk at an address; and the chunk itself.
unfoldable pub next_of : List Chunk → ℕ → Option ℕ
next_of [] address = none
next_of (chunk ∷ rest) address =
    let found = next_of rest address in if chunk.address == address then head_of rest else found

unfoldable pub chunk_at : List Chunk → ℕ → Option Chunk
chunk_at [] address = none
chunk_at (chunk ∷ rest) address =
    let found = chunk_at rest address in if chunk.address == address then some chunk else found

unfoldable pub client_count : List Client → ℕ → ℕ
client_count [] session_id = 0
client_count (client ∷ rest) session_id =
    let count = client_count rest session_id in
    if client.session_id == session_id then suc count else count

-- The test of the loops over the clients: a client of the session that waits at the chunk.
abbrev pub waits_at : ℕ → Option ℕ → Client → Bool
waits_at session_id chunk client =
    (client.session_id == session_id) && same_pointer client.next_chunk chunk

unfoldable pub any_waits_at : ℕ → Option ℕ → List Client → Bool
any_waits_at session_id chunk [] = false
any_waits_at session_id chunk (client ∷ rest) =
    waits_at session_id chunk client || any_waits_at session_id chunk rest

-- The loop of `server_prune_chunks`: the list, the tail and the count that it leaves.
unfoldable pub prune_loop : ℕ → List Client → List Chunk → Option ℕ → ℕ → List Chunk × Option ℕ × ℕ
prune_loop session_id clients [] tail count = ([], tail, count)
prune_loop session_id clients (chunk ∷ rest) tail count =
    let pruned =
      prune_loop session_id clients rest
        (if same_pointer tail (some chunk.address) then none else tail)
        (u64 (count + (2 ^ 64 - 1))) in
    if any_waits_at session_id (some chunk.address) clients
    then (chunk ∷ rest, tail, count)
    else pruned

-- A client that waits at the head is dropped.
abbrev pub drop_slow : ℕ → Option ℕ → Client → Client
drop_slow session_id head client =
    if waits_at session_id head client
    then record client { session_id = 0; dropped_for_lag = true }
    else client

-- A client of the session that waits for nothing yet gets the new chunk.
abbrev pub hand_chunk : ℕ → ℕ → Client → Client
hand_chunk session_id chunk client =
    if waits_at session_id none client then record client { next_chunk = some chunk } else client

module _ {P D : Type 0} where
  unfoldable pub clear_chunks : Server P D → Server P D
  clear_chunks server = record server { chunks = []; chunk_tail = none; chunk_count = 0 }

  unfoldable pub has_current_clients : Server P D → Bool
  has_current_clients server = ltb 0 (client_count server.clients server.active_session_id)

  unfoldable pub prune_chunks : Server P D → Server P D
  prune_chunks server =
      let pruned =
        prune_loop server.active_session_id server.clients server.chunks server.chunk_tail
          server.chunk_count in
      record server { chunks = pruned.0; chunk_tail = pruned.1; chunk_count = pruned.2 }

  -- A round of `server_make_chunk_room`: the slow clients are dropped, and their chunks freed.
  unfoldable pub drop_clients : Server P D → Server P D
  unfolding prune_chunks
  drop_clients server = prune_chunks (record server {
    clients = map (drop_slow server.active_session_id (head_of server.chunks)) server.clients;
  })

  -- The loop, in `fuel` rounds; `none` when they run out, and a result of false otherwise.
  unfoldable pub make_room_loop : ℕ → Server P D → Option (Bool × Server P D)
  unfolding drop_clients
  make_room_loop zero server = none
  make_room_loop (suc fuel) server =
      let rest = make_room_loop fuel (drop_clients server) in
      if not (leb max_buffered_chunks server.chunk_count)
      then some (true, server)
      else if not (any_waits_at server.active_session_id (head_of server.chunks) server.clients)
      then some (false, server)
      else rest

  -- Each round drops a client.
  unfoldable pub make_chunk_room : Server P D → Option (Bool × Server P D)
  make_chunk_room server = make_room_loop (length server.clients + 1) server

  -- The end of `server_produce_chunk`: the chunk is linked in and handed to the clients.
  unfoldable pub append_chunk : Server P D → Chunk → Server P D
  append_chunk server chunk = record server {
    chunks = server.chunks ++ (chunk ∷ []);
    chunk_tail = some chunk.address;
    chunk_count = u64 (server.chunk_count + 1);
    clients = map (hand_chunk server.active_session_id chunk.address) server.clients;
    session = note_queued_frames server.session chunk.frame_count;
    next_address = server.next_address + 1;
  }

  -- `filled` is what filling the session's buffer gives; a chunk that stays unused is freed.
  abbrev pub produce_filled : Server P D → Bool × Session P D → Bool × Server P D
  produce_filled server (false, session) = (false, record server { session = session })
  produce_filled server (true, session) = (
    true,
    append_chunk (record server { session = session })
        (record {
          address = server.next_address;
          frame_count = max_audio_frames_per_chunk;
          samples = session.pcm_buffer;
        }),
  )

  abbrev pub produce_in_room :
      (Session P D → Bool × Session P D) → Option (Bool × Server P D) → Option (Bool × Server P D)
  produce_in_room fill none = none
  produce_in_room fill (some (false, server)) = some (false, server)
  produce_in_room fill (some (true, server)) = some (produce_filled server (fill server.session))

  -- Without memory for a chunk the session is left as it is.
  abbrev pub fill_chunk : Dsp P D → Bool → Bool → Session P D → Bool × Session P D
  fill_chunk dsp is_debug allocated session =
      if not allocated then (false, session) else fill_pcm_chunk dsp is_debug session

  -- The inner Boolean is false for -1; `allocated` is whether `calloc` succeeds.
  unfoldable pub produce_chunk : Dsp P D → Bool → Bool → Server P D → Option (Bool × Server P D)
  produce_chunk dsp is_debug allocated server =
      produce_in_room (fill_chunk dsp is_debug allocated) (make_chunk_room server)

-- `client_stream_build_prelude`, into the client's buffer.
abbrev pub store_client_prelude :
    Client → Option (List ℕ × IcyMetadata × MuxState) → Option (List ℕ × Client)
store_client_prelude client none = none
store_client_prelude client (some built) =
    some (built.0, record client { icy = built.1; mpegts_mux = built.2 })

unfoldable pub client_prelude : Client → Option (List ℕ × Client)
client_prelude client =
    store_client_prelude client
      (prelude_of client.mode client.container client.icy client.mpegts_mux stream_buffer_size)

-- The title of the station goes to the client, where it wants titles.
abbrev pub take_title : IcyMetadata → IcyMetadata → IcyMetadata
take_title metadata icy =
    if icy.enabled
    then record icy {
      metadata_block = metadata.metadata_block;
      metadata_length = metadata.metadata_length;
    }
    else icy

abbrev pub store_packed : Client → Option Packed → Option (Option (List ℕ) × Client)
store_packed client none = none
store_packed client (some packed) =
    some (packed.output, record client { mpegts_mux = packed.mux; icy = packed.icy })

-- `client_stream_pack_chunk`; the inner `none` is a result of -1.
unfoldable pub pack_chunk : Client → Chunk → IcyMetadata → Option (Option (List ℕ) × Client)
pack_chunk client chunk metadata =
    let icy = take_title metadata client.icy in
    store_packed (record client { icy = icy })
      (wrap_muxed icy stream_buffer_size (
        body_of client.mode client.container client.mpegts_mux chunk.samples chunk.frame_count
          stream_buffer_size))
