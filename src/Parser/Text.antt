-- ===== src/Parser/Text.antt =====
-- src/rds/parser.c: the laws of its `char` arrays. A text of `n` places holds `n` characters and
-- a NUL, and every character is a NUL or printable.
use native.Mathlib.Decide.{ℕ_discrete}
use mpxcast.Prelude.{
  ℕ, zero, suc, ◌+◌, ◌-◌, ◌≤◌, ◌<◌, ◌≡◌, refl, ap, ◌∙◌, subst, ◌⊎◌, inl, inr, ◌&&◌, ◌||◌, List, [],
  ◌∷◌, ◌++◌, arith, ltb, leb, ◌==◌, length, get_or, set, drop, All, length-append, length-set,
  get_or-set_self, get_or-set_ne, All-append, if_both, All-set, All-drop, get_or-append_after,
  get_or-append_before, get_or-drop, length-overwrite,
}
use mpxcast.CString.{c_string, strcpy}
use mpxcast.CString.Laws.{length-c_string}
use mpxcast.Parser.{sanitize_char, trim_loop, trim_string}

abbrev pub IsChar : ℕ → Type 0
IsChar c = (c ≡ 0) ⊎ ((32 ≤ c) × (c < 127))

pub record IsText (n : ℕ) (text : List ℕ) : Type 0 where
  pub size : length text ≡ suc n
  pub last : get_or text n 0 ≡ 0
  pub chars : All IsChar text

pub sanitize_char-IsChar : (value : ℕ) → IsChar (sanitize_char value)
unfolding sanitize_char
sanitize_char-IsChar value =
    if_both IsChar ((value == 0) || (value == 13) || (value == 10)) _ _ (λ _. inl refl)
      λ _.
        if_both IsChar (leb 32 value && ltb value 127) _ _ (λ h. inr (ground (arith, h)))
          λ _. inr (omega arith, omega arith)

pub set-IsText :
    (n : ℕ) (text : List ℕ) (i v : ℕ) → i < n → IsChar v → IsText n text → IsText n (set text i v)
set-IsText n text i v below char valid = record {
  size = length-set text i v ∙ valid.size;
  last = get_or-set_ne text i n v 0 (λ e. absurd (omega (arith, e))) ∙ valid.last;
  chars = All-set IsChar text i v char valid.chars;
}

pub set_nul-IsText : (n : ℕ) (text : List ℕ) (i : ℕ) → IsText n text → IsText n (set text i 0)
set_nul-IsText n text i valid = record {
  size = length-set text i 0 ∙ valid.size;
  last = elim (ℕ_discrete i n) [
    | yes e ↦
        subst (λ k. get_or (set text i 0) k 0 ≡ 0) e
          (get_or-set_self text i 0 0 (omega (arith, e, valid.size)))
    | no ne ↦ get_or-set_ne text i n 0 0 ne ∙ valid.last
  ];
  chars = All-set IsChar text i 0 (inl refl) valid.chars;
}

pub trim_loop-IsText :
    (n : ℕ) (text : List ℕ) (length : ℕ) → IsText n text → IsText n (trim_loop text length)
unfolding trim_loop
trim_loop-IsText n text zero valid = valid
trim_loop-IsText n text (suc length) valid =
    if_both (IsText n) (get_or text length 0 == 32) _ _
      (λ _. trim_loop-IsText n (set text length 0) length (set_nul-IsText n text length valid))
      (λ _. valid)

pub trim_string-IsText : (n : ℕ) (text : List ℕ) → IsText n text → IsText n (trim_string text)
unfolding trim_string
trim_string-IsText n text valid = trim_loop-IsText n text (length (c_string text)) valid

c_string-chars : (text : List ℕ) → All IsChar text → All IsChar (c_string text)
unfolding c_string
c_string-chars [] h = tt
c_string-chars (x ∷ xs) h =
    if_both (All IsChar) (x == 0) _ _ (λ _. tt) (λ _. (h.0, c_string-chars xs h.1))

ends_or_goes_on : (k n : ℕ) → k ≤ n → (k ≡ n) ⊎ (k < n)
ends_or_goes_on k n h = omega arith

nul_only : (k : ℕ) → get_or {A = ℕ} (0 ∷ []) k 0 ≡ 0
nul_only zero = refl
nul_only (suc k) = refl

pub strcpy-IsText :
    (n : ℕ) (dest source : List ℕ) → IsText n dest → IsText n source → IsText n (strcpy dest source)
unfolding strcpy
strcpy-IsText n dest source to from =
    let short = length-c_string n source from.last in
    let bytes = c_string source ++ (0 ∷ []) in
    let size : length bytes ≡ suc (length (c_string source)) =
      omega (arith, length-append (c_string source) (0 ∷ [])) in
    record {
      size = length-overwrite bytes dest (omega (arith, short, size, to.size)) ∙ to.size;
      last = elim (ends_or_goes_on (length (c_string source)) n short) [
        | inl e ↦
            get_or-append_before bytes (drop (length bytes) dest) n 0 (omega (arith, size, e))
            ∙ get_or-append_after (c_string source) (0 ∷ []) n 0 short
            ∙ nul_only (n - length (c_string source))
        | inr more ↦
            get_or-append_after bytes (drop (length bytes) dest) n 0 (omega (arith, size, more))
            ∙ get_or-drop (length bytes) dest (n - length bytes) 0
            ∙ ap (λ k. get_or dest k 0) {x = length bytes + (n - length bytes)} {y = n}
                (omega (arith, size, more))
            ∙ to.last
      ];
      chars =
          All-append IsChar bytes (drop (length bytes) dest)
            (All-append IsChar (c_string source) (0 ∷ []) (c_string-chars source from.chars)
              (inl refl, tt))
            (All-drop IsChar (length bytes) dest to.chars);
    }
