-- ===== src/Icy/Block.antt =====
-- src/stream/icy.c: a metadata block, read as a client reads it, gives the title back.
use mpxcast.Prelude.{
  ℕ, ◌+◌, ◌-◌, ◌/◌, ◌≤◌, ◌<◌, ◌≡◌, refl, sym, ap, ◌∙◌, subst, ◌≢◌, true, false, not, ◌&&◌, ◌||◌,
  Option, none, some, List, [], ◌∷◌, ◌++◌, append-nil, append_assoc, arith, ltb, leb, ◌==◌,
  if◌then◌else◌, length, get_or, take, drop, replicate, overwrite, All, length-append,
  length-replicate, take-append_exact, if_both, length-overwrite,
}
use mpxcast.CString.{c_string}
use mpxcast.Icy.{
  IcyMetadata, title_prefix, title_suffix, metadata_block_capacity, title_max_length,
  padded_size_of, block_bytes, store_metadata, icy_build_metadata_block, choose_title,
  icy_metadata_update, is_empty, store_built,
}
use mpxcast.Icy.Copy.{IsTitleChar, clean_text, clean_text-IsTitleChar}
use mpxcast.Icy.Copy.Reads.{copy_text_reads}
use mpxcast.Icy.Client.{IsBlock}

-- The characters up to the next quote.
unfoldable pub until_quote : List ℕ → List ℕ
until_quote [] = []
until_quote (c ∷ cs) = let rest = until_quote cs in if c == 39 then [] else c ∷ rest

-- What a client makes of a block: a block without content names no title, and else the title
-- stands behind the length byte and "StreamTitle='".
abbrev pub read_title : List ℕ → List ℕ
read_title block = until_quote (drop 14 block)

until_quote-title :
    (title xs ys : List ℕ)
    → All IsTitleChar title
    → until_quote (((title ++ title_suffix) ++ xs) ++ ys) ≡ title
unfolding until_quote
until_quote-title [] xs ys h = refl
until_quote-title (c ∷ cs) xs ys h =
    if_both (λ t. t ≡ c ∷ cs) (c == 39) _ _ (λ e. absurd (h.0.2 (ground (arith, e))))
      (λ _. ap (λ t. c ∷ t) (until_quote-title cs xs ys h.1))

-- A block in a buffer of 256 bytes.
pub record IsBuilt (title : List ℕ) (buffer : List ℕ) (size : ℕ) : Type 0 where
  pub whole : length buffer ≡ metadata_block_capacity
  pub block : IsBlock (take size buffer)
  pub title_read : read_title (take size buffer) ≡ title

-- A text of less than 240 characters is stored, a longer one is not.
stored :
    (buffer metadata : List ℕ)
    → length buffer ≡ metadata_block_capacity
    → let size = 1 + padded_size_of metadata in
      let built = overwrite (block_bytes metadata) buffer in
      (length metadata < title_max_length
        → (store_metadata buffer metadata_block_capacity metadata ≡ some (size, built))
          × (length built ≡ metadata_block_capacity)
          × (take size built ≡ block_bytes metadata)
          × IsBlock (block_bytes metadata))
      × (title_max_length ≤ length metadata
          → store_metadata buffer metadata_block_capacity metadata ≡ none)
unfolding store_metadata
stored buffer metadata whole = (
  λ short.
      let padded = padded_size_of metadata in
      let padding : List ℕ = replicate (padded - length metadata) 0 in
      let size : length (block_bytes metadata) ≡ 1 + padded = omega (
        arith,
        length-append metadata padding,
        length-replicate {A = ℕ} (padded - length metadata) 0,
      ) in
      (
        if_both (λ r. r ≡ some (1 + padded, overwrite (block_bytes metadata) buffer))
            (leb title_max_length (length metadata)) _ _
            (λ long. absurd (ground (arith, long, short)))
            (λ _.
              if_both (λ r. r ≡ some (1 + padded, overwrite (block_bytes metadata) buffer))
                (ltb metadata_block_capacity (1 + padded) || ltb 255 (padded / 16)) _ _
                (λ large. absurd (ground (arith, large, short))) (λ _. refl)),
        length-overwrite (block_bytes metadata) buffer (omega (arith, size, short, whole)) ∙ whole,
        take-append_exact (1 + padded) (block_bytes metadata)
            (drop (length (block_bytes metadata)) buffer) (sym size),
        omega (arith, size, short),
      ),
  λ long.
      if_both (λ r. r ≡ none) (leb title_max_length (length metadata)) _ _ (λ _. refl)
        (λ short. absurd (ground (arith, long, short))),
)

-- For a buffer of 256 bytes and a title of printable characters without quotes and semicolons: up
-- to 224 characters a block is built, whose first byte announces the rest of its length in units
-- of 16 and from which a client reads the title; a longer title is refused.
pub build_metadata_block-IsBuilt :
    (buffer title : List ℕ)
    → length buffer ≡ metadata_block_capacity
    → All IsTitleChar title
    → let result = icy_build_metadata_block buffer metadata_block_capacity title in
      (length title ≤ 224
        → (size : ℕ) × (built : List ℕ) × (result ≡ some (size, built)) × IsBuilt title built size)
      × (224 < length title → result ≡ none)
unfolding icy_build_metadata_block
build_metadata_block-IsBuilt [] [] whole chars = absurd (omega arith)
build_metadata_block-IsBuilt (b ∷ buffer) [] whole chars = (
  λ _. (
    1,
    0 ∷ buffer,
    refl,
    record { whole = whole; block = refl; title_read = unfold until_quote in refl },
  ),
  λ long. absurd (omega arith),
)
build_metadata_block-IsBuilt buffer (c ∷ title) whole chars =
    let metadata = title_prefix ++ ((c ∷ title) ++ title_suffix) in
    let size : length metadata ≡ length title + 16 =
      omega (arith, length-append title title_suffix) in
    let both = stored buffer metadata whole in
    (
      λ short.
          let (built, full, taken, block) = both.0 (omega (arith, size, short)) in
          (
            1 + padded_size_of metadata,
            overwrite (block_bytes metadata) buffer,
            built,
            record {
              whole = full;
              block = subst IsBlock (sym taken) block;
              title_read =
                  ap read_title taken
                  ∙ ap until_quote (
                      sym (
                        append-nil (
                          ((c ∷ title) ++ title_suffix)
                          ++ replicate (padded_size_of metadata - length metadata) 0)))
                  ∙ until_quote-title (c ∷ title)
                      (replicate (padded_size_of metadata - length metadata) 0) [] chars;
            },
          ),
      λ long. both.1 (omega (arith, size, long)),
    )

-- An update with a title that fits is announced by the next block.
pub announced :
    (kept : IcyMetadata) (title : List ℕ)
    → length kept.metadata_block ≡ metadata_block_capacity
    → All IsTitleChar title
    → length title ≤ 224
    → let r =
        store_built kept
          (icy_build_metadata_block kept.metadata_block metadata_block_capacity title) in
      (r.0 ≡ true)
      × IsBuilt title r.1.metadata_block r.1.metadata_length
      × (r.1.stable_title ≡ kept.stable_title)
announced kept title whole chars short =
    let (size, built, e, is_built) =
      (build_metadata_block-IsBuilt kept.metadata_block title whole chars).0 short in
    subst
      (λ (o : Option (ℕ × List ℕ)).
        let r = store_built kept o in
        (r.0 ≡ true)
        × IsBuilt title r.1.metadata_block r.1.metadata_length
        × (r.1.stable_title ≡ kept.stable_title))
      (sym e) (refl, is_built, refl)

pub title_text :
    (title rest : List ℕ) → All IsTitleChar title → c_string (title ++ (0 ∷ rest)) ≡ title
unfolding c_string
title_text [] rest h = refl
title_text (c ∷ cs) rest h =
    if_both (λ t. t ≡ c ∷ cs) (c == 0) _ _ (λ e. absurd (ground (arith, e, h.0.0)))
      (λ _. ap (λ t. c ∷ t) (title_text cs rest h.1))

choose_title_complete :
    (s : IcyMetadata) (radiotext : List ℕ)
    → get_or radiotext 0 0 ≢ 0
    → choose_title s radiotext true ≡ clean_text title_max_length (c_string radiotext)
unfolding choose_title
choose_title_complete s radiotext shown =
    if_both (λ t. t ≡ clean_text title_max_length (c_string radiotext))
      (true && not (get_or radiotext 0 0 == 0)) _ _
      (λ _.
        copy_text_reads (replicate (title_max_length + 1) 0) (title_max_length + 1) radiotext
          (omega arith) (length-replicate {A = ℕ} (title_max_length + 1) 0))
      (λ empty. absurd (ground (arith, empty, shown)))

-- Where the buffer has 256 bytes, the radiotext is complete and not empty, and its cleaned text
-- has at most 224 characters: the update returns 0, the block is one from which a client reads the
-- cleaned text, and if that is not empty it is kept as the stable title.
pub update_announces :
    (s : IcyMetadata) (radiotext : List ℕ)
    → length s.metadata_block ≡ metadata_block_capacity
    → get_or radiotext 0 0 ≢ 0
    → length (clean_text title_max_length (c_string radiotext)) ≤ 224
    → let r = icy_metadata_update s radiotext true in
      let title = clean_text title_max_length (c_string radiotext) in
      (r.0 ≡ true)
      × IsBuilt title r.1.metadata_block r.1.metadata_length
      × (is_empty title ≡ false → c_string r.1.stable_title ≡ title)
unfolding icy_metadata_update
update_announces s radiotext whole shown short =
    subst
      (λ (title : List ℕ).
        let r =
          store_built (kept title)
            (icy_build_metadata_block s.metadata_block metadata_block_capacity title) in
        (r.0 ≡ true)
        × IsBuilt clean r.1.metadata_block r.1.metadata_length
        × (is_empty clean ≡ false → c_string r.1.stable_title ≡ clean))
      (sym (choose_title_complete s radiotext shown))
      (let (ok, built, same) = announced (kept clean) clean whole chars short in
        (
          ok,
          built,
          λ full.
              ap c_string same
              ∙ if_both (λ stable. c_string stable ≡ clean) (true && not (is_empty clean)) _ _
                  (λ _. stable_text) (λ empty. absurd (ground (arith, empty, full))),
        ))
  where
    clean : List ℕ
    clean = clean_text title_max_length (c_string radiotext)

    chars : All IsTitleChar clean
    chars = clean_text-IsTitleChar title_max_length (c_string radiotext)

    kept : List ℕ → IcyMetadata
    kept title = record s {
      stable_title =
          if true && not (is_empty title)
          then overwrite (title ++ (0 ∷ [])) s.stable_title
          else s.stable_title;
    }

    stable_text : c_string (overwrite (clean ++ (0 ∷ [])) s.stable_title) ≡ clean
    stable_text =
        let rest = drop (length (clean ++ (0 ∷ []))) s.stable_title in
        ap c_string (append_assoc clean (0 ∷ []) rest) ∙ title_text clean rest chars
