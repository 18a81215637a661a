-- ===== src/CString.antt =====
-- NUL-terminated strings in `char` arrays, and what the code calls of <string.h>.
pub mod Laws
use mpxcast.Prelude.{
  ℕ, ◌+◌, Bool, true, false, ◌&&◌, List, [], ◌∷◌, ◌++◌, ◌==◌, if◌then◌else◌, overwrite,
}

-- The text of a `char` array: what stands before its first NUL.
unfoldable pub c_string : List ℕ → List ℕ
c_string [] = []
c_string (c ∷ cs) = let rest = c_string cs in if c == 0 then [] else c ∷ rest

-- `strcmp(x, y) == 0`, on the texts.
unfoldable pub same_text : List ℕ → List ℕ → Bool
same_text [] [] = true
same_text [] (y ∷ ys) = false
same_text (x ∷ xs) [] = false
same_text (x ∷ xs) (y ∷ ys) = (x == y) && same_text xs ys

unfoldable pub strcmp_equal : List ℕ → List ℕ → Bool
unfolding c_string same_text
strcmp_equal x y = same_text (c_string x) (c_string y)

unfoldable pub strcpy : List ℕ → List ℕ → List ℕ
strcpy dest source = overwrite (c_string source ++ (0 ∷ [])) dest
