-- ===== src/Icy/Runs.antt =====
-- Concrete runs of src/stream/icy.c, and the theorems at concrete inputs.
use mpxcast.Prelude.{
  ℕ, ◌≤◌, ◌<◌, ◌≡◌, refl, true, false, none, some, List, [], ◌∷◌, arith, length, replicate, All,
}
use mpxcast.CString.{c_string}
use mpxcast.Icy.{
  IcyMetadata, metadata_block_capacity, title_max_length, char_out, copy_loop, trim_end,
  icy_copy_text, icy_build_metadata_block, icy_metadata_update, icy_metadata_wrap, is_empty,
}
use mpxcast.Icy.Copy.{IsTitleChar, clean_text, tidy, drop_spaces, trim_right}
use mpxcast.Icy.Copy.Reads.{copy_text_reads}
use mpxcast.Icy.Block.{IsBuilt, build_metadata_block-IsBuilt, update_announces}
use mpxcast.Icy.Update.{IsKept, IsAnnounced, update-IsKept}
use mpxcast.Icy.Wrap.{IsReady, IsWrapped, wrap_heard}

-- "  It's; on "
abbrev radiotext : List ℕ
radiotext = 32 ∷ 32 ∷ 73 ∷ 116 ∷ 39 ∷ 115 ∷ 59 ∷ 32 ∷ 111 ∷ 110 ∷ 32 ∷ 0 ∷ []

copied :
    c_string (icy_copy_text (replicate 16 1) 16 radiotext)
    ≡ 73 ∷ 116 ∷ 32 ∷ 115 ∷ 32 ∷ 32 ∷ 111 ∷ 110 ∷ []
unfolding icy_copy_text copy_loop trim_end char_out c_string
copied = refl

copy_text_reads_example :
    c_string (icy_copy_text (replicate 16 1) 16 radiotext) ≡ clean_text 15 (c_string radiotext)
copy_text_reads_example = copy_text_reads (replicate 16 1) 16 radiotext (omega arith) refl

abbrev ready : IcyMetadata
ready = record {
  enabled = true;
  audio_bytes_until_metadata = 3;
  metadata_length = 1;
  metadata_block = replicate 256 0;
  stable_title = replicate 241 0;
}

ready-IsReady : IsReady ready
ready-IsReady = record { due_pos = omega arith; due_le = omega arith; block = refl }

wrap_heard_example :
    IsWrapped ready
      (1 ∷ 2 ∷ 3 ∷ 4 ∷ 5 ∷ [])
      []
      (icy_metadata_wrap ready (1 ∷ 2 ∷ 3 ∷ 4 ∷ 5 ∷ []) 64)
wrap_heard_example = wrap_heard ready (1 ∷ 2 ∷ 3 ∷ 4 ∷ 5 ∷ []) 64 refl ready-IsReady (omega arith)

abbrev hi : List ℕ
hi = 72 ∷ 105 ∷ []

title_chars : All IsTitleChar hi
title_chars = (
  (omega arith, omega arith, (λ e. absurd (omega (arith, e))), λ e. absurd (omega (arith, e))),
  (
    (omega arith, omega arith, (λ e. absurd (omega (arith, e))), λ e. absurd (omega (arith, e))),
    tt,
  ),
)

build_metadata_block-IsBuilt_example :
    let result = icy_build_metadata_block (replicate 256 0) metadata_block_capacity hi in
    (length hi ≤ 224
      → (size : ℕ) × (built : List ℕ) × (result ≡ some (size, built)) × IsBuilt hi built size)
    × (224 < length hi → result ≡ none)
build_metadata_block-IsBuilt_example =
    build_metadata_block-IsBuilt (replicate 256 0) hi refl title_chars

clean_is_short : length (clean_text title_max_length (c_string radiotext)) ≤ 224
unfolding c_string tidy drop_spaces trim_right
clean_is_short = omega arith

update_announces_example :
    let r = icy_metadata_update ready radiotext true in
    let title = clean_text title_max_length (c_string radiotext) in
    (r.0 ≡ true)
    × IsBuilt title r.1.metadata_block r.1.metadata_length
    × (is_empty title ≡ false → c_string r.1.stable_title ≡ title)
update_announces_example =
    update_announces ready radiotext refl (λ e. absurd (omega (arith, e))) clean_is_short

ready-IsKept : IsKept ready
unfolding c_string
ready-IsKept = record { whole = refl; stable = (tt, omega arith) }

radiotext_is_short : length (c_string radiotext) ≤ 224
unfolding c_string
radiotext_is_short = omega arith

update-IsKept_example :
    let r = icy_metadata_update ready radiotext true in
    (r.0 ≡ true)
    × IsKept r.1
    × IsAnnounced r.1
    × (r.1.enabled ≡ true)
    × (r.1.audio_bytes_until_metadata ≡ 3)
update-IsKept_example = update-IsKept ready radiotext true ready-IsKept radiotext_is_short
