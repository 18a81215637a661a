-- ===== src/Icy.antt =====
-- src/stream/icy.c and icy.h: titles in the audio stream. A buffer is the list of its bytes; a
-- function that writes one and returns an `int` returns what it wrote, or `none` for -1.
pub mod Copy
pub mod Block
pub mod Client
pub mod Update
pub mod Wrap
mod Runs
use mpxcast.Prelude.{
  ℕ, zero, suc, ◌+◌, ◌-◌, ◌*◌, ◌/◌, ◌%◌, ◌^◌, min, Bool, true, false, not, ◌&&◌, ◌||◌, Option, none,
  some, List, [], ◌∷◌, ◌++◌, ltb, leb, ◌==◌, if◌then◌else◌, length, get_or, set, take, drop,
  replicate, overwrite, u8,
}
use mpxcast.CString.{c_string}

-- ICY_METAINT, ICY_TITLE_MAX_LENGTH and ICY_METADATA_BLOCK_CAPACITY
abbrev pub metaint : ℕ
metaint = 16384

abbrev pub title_max_length : ℕ
title_max_length = 240

abbrev pub metadata_block_capacity : ℕ
metadata_block_capacity = 256

-- `struct icy_metadata_state`
pub record IcyMetadata : Type 0 where
  pub enabled : Bool
  pub audio_bytes_until_metadata : ℕ
  pub metadata_length : ℕ
  pub metadata_block : List ℕ
  pub stable_title : List ℕ

unfoldable pub icy_metadata_init : Bool → IcyMetadata
icy_metadata_init enabled = record {
  enabled = enabled;
  audio_bytes_until_metadata = metaint;
  metadata_length = 0;
  metadata_block = replicate metadata_block_capacity 0;
  stable_title = replicate (title_max_length + 1) 0;
}

unfoldable pub icy_bytes_until_next_metadata : ℕ → ℕ
icy_bytes_until_next_metadata stream_body_bytes =
    let remainder = stream_body_bytes % metaint in
    if remainder == 0 then metaint else metaint - remainder

-- What the loop of `icy_copy_text` writes for a character, if anything.
unfoldable pub char_out : Bool → ℕ → Option ℕ
char_out started c =
    if (c == 39) || (c == 59)
    then if not started then none else some 32
    else if leb 32 c && ltb c 127
    then if not started && (c == 32) then none else some c
    else none

-- `dest[write_pos++] = value`, or nothing.
abbrev pub put_char : List ℕ → ℕ → Option ℕ → List ℕ
put_char dest write_pos none = dest
put_char dest write_pos (some value) = set dest write_pos value

abbrev pub advance : ℕ → Option ℕ → ℕ
advance write_pos none = write_pos
advance write_pos (some value) = write_pos + 1

abbrev pub has_started : Bool → Option ℕ → Bool
has_started started none = started
has_started started (some value) = true

-- The first loop; the end of the list is the NUL of `source` as well.
unfoldable pub copy_loop : ℕ → List ℕ → List ℕ → ℕ → Bool → List ℕ × ℕ
copy_loop capacity [] dest write_pos started = (dest, write_pos)
copy_loop capacity (c ∷ source) dest write_pos started =
    let out = char_out started c in
    let rest =
      copy_loop capacity source (put_char dest write_pos out) (advance write_pos out)
        (has_started started out) in
    if not (c == 0) && ltb (write_pos + 1) capacity then rest else (dest, write_pos)

-- The second loop.
unfoldable pub trim_end : List ℕ → ℕ → ℕ
trim_end dest zero = zero
trim_end dest (suc n) = let rest = trim_end dest n in if get_or dest n 0 == 32 then rest else suc n

unfoldable pub icy_copy_text : List ℕ → ℕ → List ℕ → List ℕ
icy_copy_text dest capacity source =
    let copied = copy_loop capacity source dest 0 false in
    if capacity == 0 then dest else set copied.0 (trim_end copied.0 copied.1) 0

-- "StreamTitle='" and "';"
abbrev pub title_prefix : List ℕ
title_prefix = 83 ∷ 116 ∷ 114 ∷ 101 ∷ 97 ∷ 109 ∷ 84 ∷ 105 ∷ 116 ∷ 108 ∷ 101 ∷ 61 ∷ 39 ∷ []

abbrev pub title_suffix : List ℕ
title_suffix = 39 ∷ 59 ∷ []

-- The block of `metadata` at the size that fits: a length byte, the text, and NULs.
abbrev pub padded_size_of : List ℕ → ℕ
padded_size_of metadata = (length metadata + 15) / 16 * 16

abbrev pub block_bytes : List ℕ → List ℕ
block_bytes metadata =
    u8 (padded_size_of metadata / 16)
    ∷ (metadata ++ replicate (padded_size_of metadata - length metadata) 0)

-- `icy_build_metadata_block` behind `snprintf`, which returns the length of the whole text, also
-- where it cuts it.
unfoldable pub store_metadata : List ℕ → ℕ → List ℕ → Option (ℕ × List ℕ)
store_metadata buffer capacity metadata =
    let padded_size = padded_size_of metadata in
    if leb title_max_length (length metadata)
    then none
    else if ltb capacity (1 + padded_size) || ltb 255 (padded_size / 16)
    then none
    else some (1 + padded_size, overwrite (block_bytes metadata) buffer)

-- `title` is its text.
unfoldable pub icy_build_metadata_block : List ℕ → ℕ → List ℕ → Option (ℕ × List ℕ)
icy_build_metadata_block buffer capacity [] =
    if capacity == 0 then none else some (1, set buffer 0 0)
icy_build_metadata_block buffer capacity (c ∷ title) =
    store_metadata buffer capacity (title_prefix ++ ((c ∷ title) ++ title_suffix))

-- The text that `icy_metadata_update` leaves in `title`; the places behind its NUL are not read.
unfoldable pub choose_title : IcyMetadata → List ℕ → Bool → List ℕ
choose_title state radiotext has_complete_radiotext =
    if has_complete_radiotext && not (get_or radiotext 0 0 == 0)
    then c_string
        (icy_copy_text (replicate (title_max_length + 1) 0) (title_max_length + 1) radiotext)
    else if not (get_or state.stable_title 0 0 == 0)
    then c_string state.stable_title
    else []

abbrev pub is_empty : List ℕ → Bool
is_empty [] = true
is_empty (c ∷ text) = false

-- The state gets the length that was built, or SIZE_MAX, the cast of -1; `true` is a result of 0.
abbrev pub store_built : IcyMetadata → Option (ℕ × List ℕ) → Bool × IcyMetadata
store_built state none = (false, record state { metadata_length = 2 ^ 64 - 1 })
store_built state (some (size, block)) =
    (true, record state { metadata_length = size; metadata_block = block })

unfoldable pub icy_metadata_update : IcyMetadata → List ℕ → Bool → Bool × IcyMetadata
icy_metadata_update state radiotext has_complete_radiotext =
    let title = choose_title state radiotext has_complete_radiotext in
    let kept = record state {
      stable_title =
          if has_complete_radiotext && not (is_empty title)
          then overwrite (title ++ (0 ∷ [])) state.stable_title
          else state.stable_title;
    } in
    store_built kept (icy_build_metadata_block state.metadata_block metadata_block_capacity title)

-- What `icy_metadata_wrap` leaves: the bytes it wrote, or `none` for -1, and the state. It returns
-- their number as an `int`, which is that number below 2 ^ 31; the buffers of its callers have 32768
-- bytes at most.
pub record Wrapped : Type 0 where
  pub output : Option (List ℕ)
  pub state : IcyMetadata

abbrev pub wrap_chunk : IcyMetadata → List ℕ → ℕ
wrap_chunk state body = min (length body) state.audio_bytes_until_metadata

-- The body of the loop, for the bytes of the chunk and the output so far.
unfoldable pub wrap_round : ℕ → IcyMetadata → List ℕ → List ℕ → Wrapped
wrap_round capacity state bytes output =
    let until = state.audio_bytes_until_metadata - length bytes in
    let moved = record state { audio_bytes_until_metadata = until } in
    let filled = output ++ bytes in
    if ltb capacity (length output + length bytes)
    then record { output = none; state = state }
    else if not (until == 0)
    then record { output = some filled; state = moved }
    else if ltb capacity (length filled + state.metadata_length)
    then record { output = none; state = moved }
    else record {
      output = some (filled ++ take state.metadata_length state.metadata_block);
      state = record state { audio_bytes_until_metadata = metaint };
    }

-- A round that returned -1 ends the loop.
abbrev pub proceed :
    IcyMetadata → Option (List ℕ) → (IcyMetadata → List ℕ → Option Wrapped) → Option Wrapped
proceed state none loop = some (record { output = none; state = state })
proceed state (some output) loop = loop state output

-- The loop over the rest of the body, with the output so far; `none` when the rounds run out.
unfoldable pub wrap_loop : ℕ → ℕ → IcyMetadata → List ℕ → List ℕ → Option Wrapped
wrap_loop zero capacity state body output = none
wrap_loop (suc fuel) capacity state body output =
    let chunk = wrap_chunk state body in
    let round = wrap_round capacity state (take chunk body) output in
    let rest =
      proceed round.state round.output
        (λ next next_output. wrap_loop fuel capacity next (drop chunk body) next_output) in
    if length body == 0 then some (record { output = some output; state = state }) else rest

-- Each round takes a byte of the body.
unfoldable pub icy_metadata_wrap : IcyMetadata → List ℕ → ℕ → Option Wrapped
icy_metadata_wrap state body capacity =
    if not state.enabled
    then some
        (record { output = if ltb capacity (length body) then none else some body; state = state })
    else wrap_loop (length body + 1) capacity state body []
