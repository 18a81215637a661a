-- ===== src/Server/Queue.antt =====
-- src/stream/server.c: the shared list of chunks as a queue for each client, and what holds of it.
use mpxcast.Prelude.{
  ℕ, suc, ◌≤◌, ◌<◌, ◌≡◌, Bool, true, false, ◌||◌, Option, none, some, List, [], ◌∷◌, map, ◌==◌,
  if◌then◌else◌, length, All,
}
use mpxcast.Server.{Chunk, Client, Server, max_buffered_chunks}

-- The chunks from the one that a pointer is at.
unfoldable pub from_pointer : List Chunk → Option ℕ → List Chunk
from_pointer chunks none = []
from_pointer [] (some address) = []
from_pointer (chunk ∷ rest) (some address) =
    let later = from_pointer rest (some address) in
    if chunk.address == address then chunk ∷ rest else later

-- What is still to be sent to a client, if it is one of the session.
abbrev pub queue_of : ℕ → List Chunk → Client → Option (List Chunk)
queue_of session_id chunks client =
    if client.session_id == session_id then some (from_pointer chunks client.next_chunk) else none

-- The view of the server in which each client has a queue of its own.
abbrev pub queues : {P D : Type 0} → Server P D → List (Option (List Chunk))
queues server = map (queue_of server.active_session_id server.chunks) server.clients

unfoldable pub has_address : List Chunk → ℕ → Bool
has_address [] address = false
has_address (chunk ∷ rest) address = (chunk.address == address) || has_address rest address

-- A pointer to no chunk, or to one of the list.
abbrev pub Points : List Chunk → Option ℕ → Type 0
Points chunks none = Unit
Points chunks (some address) = has_address chunks address ≡ true

-- A client of the session points into the list.
abbrev pub IsSafe : ℕ → List Chunk → Client → Type 0
IsSafe session_id chunks client = client.session_id ≡ session_id → Points chunks client.next_chunk

-- The addresses go up, from `low` on and below `high`.
abbrev pub Ascending : ℕ → List Chunk → ℕ → Type 0
Ascending low [] high = low ≤ high
Ascending low (chunk ∷ rest) high = (low ≤ chunk.address) × Ascending (suc chunk.address) rest high

-- The addresses go down, below `high`.
abbrev pub Descending : ℕ → List Client → Type 0
Descending high [] = Unit
Descending high (client ∷ rest) = (client.address < high) × Descending client.address rest

abbrev pub last_of : List Chunk → Option ℕ
last_of [] = none
last_of (chunk ∷ []) = some chunk.address
last_of (chunk ∷ second ∷ rest) = last_of (second ∷ rest)

-- A list of chunks with its tail and its count.
pub record IsQueue (chunks : List Chunk) (tail : Option ℕ) (count : ℕ) : Type 0 where
  pub counted : count ≡ length chunks
  pub bounded : length chunks ≤ max_buffered_chunks
  pub ends : tail ≡ last_of chunks

-- What holds of the server whenever the lock is free: the list is one, with at most 256 chunks; each
-- client of the session points into it; no client is of a later session, and there is none before
-- the first; a running session has a number; clients and chunks have addresses of their own.
pub record IsValid {P D : Type 0} (server : Server P D) : Type 0 where
  pub queue : IsQueue server.chunks server.chunk_tail server.chunk_count
  pub ascending : Ascending 0 server.chunks server.next_address
  pub safe : All (IsSafe server.active_session_id server.chunks) server.clients
  pub known : All (λ (client : Client). client.session_id ≤ server.active_session_id) server.clients
  pub started : 0 < length server.clients → 0 < server.active_session_id
  pub numbered : server.session_active ≡ true → 0 < server.active_session_id
  pub apart : Descending server.next_address server.clients
