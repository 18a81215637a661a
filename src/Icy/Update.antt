-- ===== src/Icy/Update.antt =====
-- src/stream/icy.c: what `icy_metadata_update` needs and keeps.
use mpxcast.Prelude.{
  Option, none, some, ℕ, ◌+◌, ◌≤◌, ◌≡◌, refl, sym, ap, ◌∙◌, subst, Bool, true, not, ◌&&◌, List, [],
  ◌∷◌, ◌++◌, append_assoc, arith, ◌==◌, if◌then◌else◌, length, get_or, take, drop, replicate,
  overwrite, All, length-take, length-replicate, if_both, leb, ltb, ◌||◌, suc,
}
use mpxcast.CString.{c_string}
use mpxcast.Icy.{
  IcyMetadata, title_max_length, metadata_block_capacity, icy_metadata_init, icy_copy_text,
  choose_title, icy_metadata_update, icy_build_metadata_block, is_empty, store_built,
}
use mpxcast.Icy.Copy.{
  IsTitleChar, clean_text, clean_text-IsTitleChar, tidy, drop_spaces, trim_right,
}
use mpxcast.Icy.Copy.Reads.{copy_text_reads}
use mpxcast.Icy.Client.{IsBlock}
use mpxcast.Icy.Block.{IsBuilt, announced, title_text}

-- A text that a block has room for.
abbrev pub IsTitle : List ℕ → Type 0
IsTitle title = All IsTitleChar title × (length title ≤ 224)

tidy-le : (cs : List ℕ) → length (tidy cs) ≤ length cs
unfolding tidy
tidy-le [] = omega arith
tidy-le (c ∷ cs) =
    if_both (λ (t : List ℕ). length t ≤ suc (length cs)) ((c == 39) || (c == 59)) _ _
      (λ _. omega (arith, tidy-le cs))
      λ _.
        if_both (λ (t : List ℕ). length t ≤ suc (length cs)) (leb 32 c && ltb c 127) _ _
          (λ _. omega (arith, tidy-le cs)) (λ _. omega (arith, tidy-le cs))

drop_spaces-le : (cs : List ℕ) → length (drop_spaces cs) ≤ length cs
unfolding drop_spaces
drop_spaces-le [] = omega arith
drop_spaces-le (c ∷ cs) =
    if_both (λ (t : List ℕ). length t ≤ suc (length cs)) (c == 32) _ _
      (λ _. omega (arith, drop_spaces-le cs)) (λ _. omega arith)

trim_right-le : (cs : List ℕ) → length (trim_right cs) ≤ length cs
unfolding trim_right
trim_right-le [] = omega arith
trim_right-le (c ∷ cs) =
    if_both (λ (t : List ℕ). length t ≤ suc (length cs)) ((c == 32) && is_empty (trim_right cs)) _ _
      (λ _. omega arith) (λ _. omega (arith, trim_right-le cs))

clean_text-le : (room : ℕ) (source : List ℕ) → length (clean_text room source) ≤ length source
clean_text-le room source = omega (
  arith,
  trim_right-le (take room (drop_spaces (tidy source))),
  length-take room (drop_spaces (tidy source)),
  drop_spaces-le (tidy source),
  tidy-le source,
)

-- What holds between two updates: the block has its place, and the stable title would fit.
pub record IsKept (s : IcyMetadata) : Type 0 where
  pub whole : length s.metadata_block ≡ metadata_block_capacity
  pub stable : IsTitle (c_string s.stable_title)

-- A block that may be put out.
pub record IsAnnounced (s : IcyMetadata) : Type 0 where
  pub block : IsBlock (take s.metadata_length s.metadata_block)
  pub short : s.metadata_length ≤ metadata_block_capacity

choose_title-IsTitle :
    (s : IcyMetadata) (radiotext : List ℕ) (complete : Bool)
    → IsTitle (c_string s.stable_title)
    → length (c_string radiotext) ≤ 224
    → IsTitle (choose_title s radiotext complete)
unfolding choose_title
choose_title-IsTitle s radiotext complete stable short =
    let copied =
      c_string
        (icy_copy_text (replicate (title_max_length + 1) 0) (title_max_length + 1) radiotext) in
    let clean = clean_text title_max_length (c_string radiotext) in
    let reads : copied ≡ clean =
      copy_text_reads (replicate (title_max_length + 1) 0) (title_max_length + 1) radiotext
        (omega arith) (length-replicate {A = ℕ} (title_max_length + 1) 0) in
    let good : IsTitle clean = (
      clean_text-IsTitleChar title_max_length (c_string radiotext),
      omega (arith, short, clean_text-le title_max_length (c_string radiotext)),
    ) in
    if_both IsTitle (complete && not (get_or radiotext 0 0 == 0)) _ _
      (λ _. subst IsTitle (sym reads) good)
      λ _.
        if_both IsTitle (not (get_or s.stable_title 0 0 == 0)) _ _ (λ _. stable)
          (λ _. (tt, omega arith))

store_built_keeps :
    (kept : IcyMetadata) (built : Option (ℕ × List ℕ))
    → let r = store_built kept built in
      (r.1.enabled ≡ kept.enabled)
      × (r.1.audio_bytes_until_metadata ≡ kept.audio_bytes_until_metadata)
store_built_keeps kept none = (refl, refl)
store_built_keeps kept (some built) = (refl, refl)

IsBuilt-IsAnnounced :
    (title : List ℕ) (s : IcyMetadata)
    → IsBuilt title s.metadata_block s.metadata_length
    → IsAnnounced s
IsBuilt-IsAnnounced title s built = record {
  block = built.block;
  short = omega (arith, built.block, built.whole, length-take s.metadata_length s.metadata_block);
}

-- For a radiotext of at most 224 characters, complete or not, and from a state with a block of its
-- size and a stable title that fits, the update returns 0, keeps what it needs, and leaves a block
-- that may be put out; the count of audio bytes stays.
pub update-IsKept :
    (s : IcyMetadata) (radiotext : List ℕ) (complete : Bool)
    → IsKept s
    → length (c_string radiotext) ≤ 224
    → let r = icy_metadata_update s radiotext complete in
      (r.0 ≡ true)
      × IsKept r.1
      × IsAnnounced r.1
      × (r.1.enabled ≡ s.enabled)
      × (r.1.audio_bytes_until_metadata ≡ s.audio_bytes_until_metadata)
unfolding icy_metadata_update
update-IsKept s radiotext complete ok short =
    let title = choose_title s radiotext complete in
    let good = choose_title-IsTitle s radiotext complete ok.stable short in
    let kept : IcyMetadata = record s {
      stable_title =
          if complete && not (is_empty title)
          then overwrite (title ++ (0 ∷ [])) s.stable_title
          else s.stable_title;
    } in
    let built = icy_build_metadata_block s.metadata_block metadata_block_capacity title in
    let (done, is_built, same) = announced kept title ok.whole good.0 good.1 in
    let (enabled, audio) = store_built_keeps kept built in
    (
      done,
      record {
        whole = is_built.whole;
        stable = subst IsTitle (ap c_string (sym same)) (
            if_both (λ text. IsTitle (c_string text)) (complete && not (is_empty title)) _ _
              (λ _.
                let rest = drop (length (title ++ (0 ∷ []))) s.stable_title in
                subst IsTitle
                  (sym
                    (ap c_string (append_assoc title (0 ∷ []) rest) ∙ title_text title rest good.0))
                  good)
              (λ _. ok.stable));
      },
      IsBuilt-IsAnnounced title (store_built kept built).1 is_built,
      enabled,
      audio,
    )

-- A stream starts with what an update needs.
pub icy_metadata_init-IsKept : (enabled : Bool) → IsKept (icy_metadata_init enabled)
unfolding icy_metadata_init c_string
icy_metadata_init-IsKept enabled = record { whole = refl; stable = (tt, omega arith) }
