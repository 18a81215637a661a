-- ===== src/Icy/Copy.antt =====
-- src/stream/icy.c: `icy_copy_text` against a description of the text that it leaves.
pub mod Reads
use mpxcast.Prelude.{
  ℕ, ◌-◌, ◌≤◌, ◌<◌, ◌≢◌, ◌&&◌, ◌||◌, List, [], ◌∷◌, arith, ltb, leb, ◌==◌, if◌then◌else◌, take, All,
  All-take, if_both,
}
use mpxcast.Icy.{is_empty}

-- Quotes and semicolons are spaces, and what is not printable is left out.
unfoldable pub tidy : List ℕ → List ℕ
tidy [] = []
tidy (c ∷ cs) =
    let rest = tidy cs in
    if (c == 39) || (c == 59) then 32 ∷ rest else if leb 32 c && ltb c 127 then c ∷ rest else rest

unfoldable pub drop_spaces : List ℕ → List ℕ
drop_spaces [] = []
drop_spaces (c ∷ cs) = let rest = drop_spaces cs in if c == 32 then rest else c ∷ cs

unfoldable pub trim_right : List ℕ → List ℕ
trim_right [] = []
trim_right (c ∷ cs) =
    let rest = trim_right cs in if (c == 32) && is_empty rest then [] else c ∷ rest

-- The text that is meant: tidied, without spaces at its start, cut to the room, without spaces at
-- its end.
abbrev pub clean_text : ℕ → List ℕ → List ℕ
clean_text room source = trim_right (take room (drop_spaces (tidy source)))

-- A character that may stand in a title.
abbrev pub IsTitleChar : ℕ → Type 0
IsTitleChar c = (32 ≤ c) × (c < 127) × (c ≢ 39) × (c ≢ 59)

tidy-IsTitleChar : (cs : List ℕ) → All IsTitleChar (tidy cs)
unfolding tidy
tidy-IsTitleChar [] = tt
tidy-IsTitleChar (c ∷ cs) =
    if_both (All IsTitleChar) ((c == 39) || (c == 59)) _ _
      (λ _. (
        (
          omega arith,
          omega arith,
          (λ e. absurd (omega (arith, e))),
          λ e. absurd (omega (arith, e)),
        ),
        tidy-IsTitleChar cs,
      ))
      λ plain.
        if_both (All IsTitleChar) (leb 32 c && ltb c 127) _ _
          (λ printable. (
            (
              ground (arith, printable),
              ground (arith, printable),
              (λ e. ground (arith, e, plain)),
              λ e. ground (arith, e, plain),
            ),
            tidy-IsTitleChar cs,
          ))
          (λ _. tidy-IsTitleChar cs)

module _ {ℓ} (P : ℕ → Type ℓ) where
  drop_spaces-All : (cs : List ℕ) → All P cs → All P (drop_spaces cs)
  unfolding drop_spaces
  drop_spaces-All [] h = tt
  drop_spaces-All (c ∷ cs) h = if_both (All P) (c == 32) _ _ (λ _. drop_spaces-All cs h.1) (λ _. h)

  trim_right-All : (cs : List ℕ) → All P cs → All P (trim_right cs)
  unfolding trim_right
  trim_right-All [] h = tt
  trim_right-All (c ∷ cs) h =
      if_both (All P) ((c == 32) && is_empty (trim_right cs)) _ _ (λ _. tt)
        (λ _. (h.0, trim_right-All cs h.1))

pub clean_text-IsTitleChar : (room : ℕ) (source : List ℕ) → All IsTitleChar (clean_text room source)
clean_text-IsTitleChar room source =
    trim_right-All IsTitleChar _
      (All-take IsTitleChar room _ (drop_spaces-All IsTitleChar _ (tidy-IsTitleChar source)))
