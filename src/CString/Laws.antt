-- ===== src/CString/Laws.antt =====
-- What a copied string reads as, and when two are equal.
use mpxcast.Prelude.{
  ℕ, zero, suc, ◌≤◌, ◌≡◌, refl, ap, ap₂, ◌∙◌, ◌↔◌, true, List, [], ◌∷◌, ◌++◌, append_assoc, arith,
  ◌==◌, length, get_or, drop, if_both,
}
use mpxcast.CString.{c_string, same_text, strcmp_equal, strcpy}

pub length-c_string : (n : ℕ) (text : List ℕ) → get_or text n 0 ≡ 0 → length (c_string text) ≤ n
unfolding c_string
length-c_string n [] h = omega arith
length-c_string zero (x ∷ xs) h = ground (arith, h)
length-c_string (suc n) (x ∷ xs) h = ground (arith, length-c_string n xs h)

-- A copy is read as what was copied.
pub c_string-append : (text rest : List ℕ) → c_string (c_string text ++ (0 ∷ rest)) ≡ c_string text
unfolding c_string
c_string-append [] rest = refl
c_string-append (x ∷ xs) rest =
    if_both (λ t. c_string (t ++ (0 ∷ rest)) ≡ t) (x == 0) _ _ (λ _. refl)
      (λ ne.
        if_both (λ t. t ≡ x ∷ c_string xs) (x == 0) _ _ (λ e. absurd (ground (arith, e, ne)))
          (λ _. ap (λ t. x ∷ t) (c_string-append xs rest)))

pub strcpy_text : (dest source : List ℕ) → c_string (strcpy dest source) ≡ c_string source
unfolding strcpy
strcpy_text dest source =
    let rest = drop (length (c_string source ++ (0 ∷ []))) dest in
    ap c_string (append_assoc (c_string source) (0 ∷ []) rest) ∙ c_string-append source rest

pub same_text_iff : (xs ys : List ℕ) → (same_text xs ys ≡ true) ↔ (xs ≡ ys)
unfolding same_text
same_text_iff [] [] = (λ _. refl, λ _. refl)
same_text_iff [] (y ∷ ys) = (λ h. absurd cc, λ h. absurd cc)
same_text_iff (x ∷ xs) [] = (λ h. absurd cc, λ h. absurd cc)
same_text_iff (x ∷ xs) (y ∷ ys) =
    let rest = same_text_iff xs ys in
    (
      λ h. ap₂ (λ (z : ℕ) zs. z ∷ zs) (ground (arith, h)) (rest.0 (ground (arith, h))),
      λ e.
          let head : x ≡ y = ap (λ (zs : List ℕ). get_or zs 0 0) e in
          let tail = rest.1 (ap (λ (zs : List ℕ). drop 1 zs) e) in ground (arith, head, tail),
    )

pub strcmp_equal_iff : (x y : List ℕ) → (strcmp_equal x y ≡ true) ↔ (c_string x ≡ c_string y)
unfolding strcmp_equal
strcmp_equal_iff x y = same_text_iff (c_string x) (c_string y)
