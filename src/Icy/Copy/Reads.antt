-- ===== src/Icy/Copy/Reads.antt =====
-- src/stream/icy.c: `icy_copy_text` leaves the text that is described in `Copy`.
use mpxcast.Prelude.{
  ℕ, zero, suc, ◌+◌, ◌-◌, ◌≤◌, ◌<◌, ◌≡◌, refl, sym, ap, ◌∙◌, subst, Bool, true, false, not, ◌&&◌,
  ◌||◌, Option, none, some, List, [], ◌∷◌, ◌++◌, append-nil, append_assoc, arith, ltb, leb, ◌==◌,
  if◌then◌else◌, length, get_or, set, take, All, length-set, if_both,
}
use mpxcast.CString.{c_string}
use mpxcast.Icy.{
  char_out, put_char, advance, has_started, is_empty, copy_loop, trim_end, icy_copy_text,
}
use mpxcast.Icy.Copy.{
  tidy, drop_spaces, trim_right, clean_text, IsTitleChar, clean_text-IsTitleChar,
}

-- What is still to come, once the text has started or before.
abbrev left : Bool → List ℕ → List ℕ
left true text = text
left false text = drop_spaces text

-- The loop's character, against the description.
abbrev led : Option ℕ → List ℕ → Bool → List ℕ
led none cs started = left started (tidy cs)
led (some value) cs started = value ∷ tidy cs

led_started :
    (quote printable : Bool) (c : ℕ) (cs : List ℕ)
    → (if quote then 32 ∷ tidy cs else if printable then c ∷ tidy cs else tidy cs)
      ≡ led (if quote then some 32 else if printable then some c else none) cs true
led_started true printable c cs = refl
led_started false true c cs = refl
led_started false false c cs = refl

led_open :
    (quote printable space : Bool) (c : ℕ) (cs : List ℕ)
    → drop_spaces (c ∷ tidy cs) ≡ (if space then drop_spaces (tidy cs) else c ∷ tidy cs)
    → drop_spaces (if quote then 32 ∷ tidy cs else if printable then c ∷ tidy cs else tidy cs)
      ≡ led
          (if quote then none else if printable then if space then none else some c else none)
          cs
          false
unfolding drop_spaces
led_open true printable space c cs e = refl
led_open false true true c cs e = e
led_open false true false c cs e = e
led_open false false space c cs e = refl

char_out-left :
    (started : Bool) (c : ℕ) (cs : List ℕ)
    → left started (tidy (c ∷ cs)) ≡ led (char_out started c) cs started
unfolding char_out tidy
char_out-left true c cs = led_started ((c == 39) || (c == 59)) (leb 32 c && ltb c 127) c cs
char_out-left false c cs =
    led_open ((c == 39) || (c == 59)) (leb 32 c && ltb c 127) (c == 32) c cs
      (unfold drop_spaces in refl)

take-nil : {A : Type 0} (n : ℕ) → take {A = A} n [] ≡ []
take-nil zero = refl
take-nil (suc n) = refl

-- A character written behind a prefix lengthens it.
take-set :
    (dest : List ℕ) (n v : ℕ)
    → n < length dest
    → take (suc n) (set dest n v) ≡ take n dest ++ (v ∷ [])
take-set [] n v h = absurd (omega arith)
take-set (x ∷ xs) zero v h = refl
take-set (x ∷ xs) (suc n) v h = ap (λ t. x ∷ t) (take-set xs n v (omega arith))

take-suc :
    (dest : List ℕ) (n : ℕ)
    → n < length dest
    → take (suc n) dest ≡ take n dest ++ (get_or dest n 0 ∷ [])
take-suc [] n h = absurd (omega arith)
take-suc (x ∷ xs) zero h = refl
take-suc (x ∷ xs) (suc n) h = ap (λ t. x ∷ t) (take-suc xs n (omega arith))

-- What the first loop leaves, for `room` more characters.
record Copied (capacity pos : ℕ) (dest text : List ℕ) (result : List ℕ × ℕ) : Type 0 where
  added : List ℕ
  means : added ≡ take (capacity - 1 - pos) text
  written : take result.1 result.0 ≡ take pos dest ++ added
  end : result.1 < capacity
  size : length result.0 ≡ capacity

stops :
    (capacity pos : ℕ) (dest text : List ℕ)
    → pos < capacity
    → length dest ≡ capacity
    → take (capacity - 1 - pos) text ≡ []
    → Copied capacity pos dest text (dest, pos)
stops capacity pos dest text below size nothing = record {
  added = [];
  means = sym nothing;
  written = sym (append-nil (take pos dest));
  end = below;
  size = size;
}

left-nil : (started : Bool) → left started (tidy []) ≡ []
unfolding tidy drop_spaces
left-nil true = refl
left-nil false = refl

c_string-more :
    (c : ℕ) (source : List ℕ) → (c == 0) ≡ false → c_string (c ∷ source) ≡ c ∷ c_string source
unfolding c_string
c_string-more c source ne =
    if_both (λ t. t ≡ c ∷ c_string source) (c == 0) _ _ (λ e. absurd (ground (arith, ne, e)))
      (λ _. refl)

advance-lt :
    (capacity pos : ℕ) (out : Option ℕ)
    → pos < capacity
    → pos + 1 < capacity
    → advance pos out < capacity
advance-lt capacity pos none below next = below
advance-lt capacity pos (some v) below next = next

length-put_char :
    (dest : List ℕ) (pos : ℕ) (out : Option ℕ) → length (put_char dest pos out) ≡ length dest
length-put_char dest pos none = refl
length-put_char dest pos (some v) = length-set dest pos v

continues :
    (capacity pos : ℕ) (dest text source : List ℕ) (started : Bool) (out : Option ℕ)
    {result : List ℕ × ℕ}
    → text ≡ led out source started
    → pos + 1 < capacity
    → length dest ≡ capacity
    → Copied capacity
        (advance pos out)
        (put_char dest pos out)
        (left (has_started started out) (tidy source))
        result
    → Copied capacity pos dest text result
continues capacity pos dest text source started none {result = result} e below size rest =
    subst (λ t. Copied capacity pos dest t result) (sym e) rest
continues capacity pos dest text source started (some v) {result = result} e below size rest =
    record {
      added = v ∷ rest.added;
      means =
          ap (λ t. v ∷ t) rest.means
          ∙ ap (λ n. take n (v ∷ tidy source)) {x = suc (capacity - 1 - (pos + 1))}
              {y = capacity - 1 - pos} (omega arith)
          ∙ ap (take (capacity - 1 - pos)) (sym e);
      written =
          rest.written
          ∙ ap (λ t. t ++ rest.added)
              (ap (λ n. take n (set dest pos v)) {x = pos + 1} {y = suc pos} (omega arith)
                ∙ take-set dest pos v (omega arith))
          ∙ append_assoc (take pos dest) (v ∷ []) rest.added;
      end = rest.end;
      size = rest.size;
    }

copy_loop-Copied :
    (capacity : ℕ) (source dest : List ℕ) (pos : ℕ) (started : Bool)
    → pos < capacity
    → length dest ≡ capacity
    → Copied capacity pos dest
        (left started (tidy (c_string source)))
        (copy_loop capacity source dest pos started)
unfolding copy_loop c_string
copy_loop-Copied capacity [] dest pos started below size =
    stops capacity pos dest _ below size
      (ap (take (capacity - 1 - pos)) (left-nil started) ∙ take-nil (capacity - 1 - pos))
copy_loop-Copied capacity (c ∷ source) dest pos started below size =
    let out = char_out started c in
    if_both (Copied capacity pos dest (left started (tidy (c_string (c ∷ source)))))
      (not (c == 0) && ltb (pos + 1) capacity) _ (dest, pos)
      (λ on.
        continues capacity pos dest _ (c_string source) started out
          (ap (λ t. left started (tidy t)) (c_string-more c source (ground (arith, on)))
            ∙ char_out-left started c (c_string source))
          (ground (arith, on)) size
          (copy_loop-Copied capacity source (put_char dest pos out) (advance pos out)
            (has_started started out) (advance-lt capacity pos out below (ground (arith, on)))
            (length-put_char dest pos out ∙ size)))
      λ off. stops capacity pos dest _ below size (
        if_both (λ text. take (capacity - 1 - pos) (left started (tidy text)) ≡ []) (c == 0) []
          (c ∷ c_string source)
          (λ _. ap (take (capacity - 1 - pos)) (left-nil started) ∙ take-nil (capacity - 1 - pos))
          λ more.
            ap (λ n. take n (left started (tidy (c ∷ c_string source)))) {x = capacity - 1 - pos}
              {y = 0} (ground (arith, off, more, below)))

-- The second loop is the trimming at the right.
trim_right-space : (xs : List ℕ) → trim_right (xs ++ (32 ∷ [])) ≡ trim_right xs
unfolding trim_right
trim_right-space [] = refl
trim_right-space (x ∷ xs) =
    ap (λ (t : List ℕ). if (x == 32) && is_empty t then [] else x ∷ t) (trim_right-space xs)

append_one : (xs : List ℕ) (c : ℕ) → is_empty (xs ++ (c ∷ [])) ≡ false
append_one [] c = refl
append_one (x ∷ xs) c = refl

trim_right-other :
    (xs : List ℕ) (c : ℕ) → (c == 32) ≡ false → trim_right (xs ++ (c ∷ [])) ≡ xs ++ (c ∷ [])
unfolding trim_right
trim_right-other [] c ne =
    if_both (λ t. t ≡ c ∷ []) ((c == 32) && true) _ _ (λ e. absurd (ground (arith, ne, e)))
      (λ _. refl)
trim_right-other (x ∷ xs) c ne =
    ap (λ (t : List ℕ). if (x == 32) && is_empty t then [] else x ∷ t) (trim_right-other xs c ne)
    ∙ if_both (λ t. t ≡ x ∷ (xs ++ (c ∷ []))) ((x == 32) && is_empty (xs ++ (c ∷ []))) _ _
        (λ e. absurd (ground (arith, e, append_one xs c))) (λ _. refl)

trim_end-trim_right :
    (dest : List ℕ) (n : ℕ)
    → n ≤ length dest
    → take (trim_end dest n) dest ≡ trim_right (take n dest)
unfolding trim_end
trim_end-trim_right dest zero h = unfold trim_right in refl
trim_end-trim_right dest (suc n) h =
    if_both (λ k. take k dest ≡ trim_right (take (suc n) dest)) (get_or dest n 0 == 32) _ (suc n)
      (λ space.
        trim_end-trim_right dest n (omega arith)
        ∙ sym (
            ap trim_right (
              take-suc dest n (omega arith)
              ∙ ap (λ v. take n dest ++ (v ∷ [])) {x = get_or dest n 0} {y = 32}
                  (ground (arith, space)))
            ∙ trim_right-space (take n dest)))
      λ other.
        take-suc dest n (omega arith)
        ∙ sym (trim_right-other (take n dest) (get_or dest n 0) other)
        ∙ sym (ap trim_right (take-suc dest n (omega arith)))

trim_end_le : (dest : List ℕ) (n : ℕ) → trim_end dest n ≤ n
unfolding trim_end
trim_end_le dest zero = omega arith
trim_end_le dest (suc n) =
    if_both (λ k. k ≤ suc n) (get_or dest n 0 == 32) _ (suc n)
      (λ _. omega (arith, trim_end_le dest n)) (λ _. omega arith)

c_string-set :
    (dest : List ℕ) (n : ℕ)
    → n < length dest
    → All IsTitleChar (take n dest)
    → c_string (set dest n 0) ≡ take n dest
unfolding c_string
c_string-set [] n h chars = absurd (omega arith)
c_string-set (x ∷ xs) zero h chars = refl
c_string-set (x ∷ xs) (suc n) h chars =
    if_both (λ t. t ≡ x ∷ take n xs) (x == 0) _ _ (λ e. absurd (ground (arith, e, chars.0.0)))
      (λ _. ap (λ t. x ∷ t) (c_string-set xs n (omega arith) chars.1))

-- For a buffer as large as the capacity, which is not 0, the text that is left in it is the
-- source's with quotes and semicolons made spaces, unprintable characters left out, spaces dropped
-- at the start, cut to one character less than the capacity, and spaces dropped at the end.
pub copy_text_reads :
    (dest : List ℕ) (capacity : ℕ) (source : List ℕ)
    → 0 < capacity
    → length dest ≡ capacity
    → c_string (icy_copy_text dest capacity source) ≡ clean_text (capacity - 1) (c_string source)
unfolding icy_copy_text
copy_text_reads dest capacity source room size =
    let result = copy_loop capacity source dest 0 false in
    let copied = copy_loop-Copied capacity source dest 0 false room size in
    let text : take (trim_end result.0 result.1) result.0
        ≡ clean_text (capacity - 1) (c_string source) =
      trim_end-trim_right result.0 result.1 (omega (arith, copied.end, copied.size))
      ∙ ap trim_right (
          copied.written
          ∙ copied.means
          ∙ ap (λ n. take n (drop_spaces (tidy (c_string source)))) {x = capacity - 1 - 0}
              {y = capacity - 1} (omega arith)) in
    if_both (λ t. c_string t ≡ clean_text (capacity - 1) (c_string source)) (capacity == 0) dest _
      (λ none_left. absurd (ground (arith, none_left, room)))
      λ _.
        c_string-set result.0 (trim_end result.0 result.1)
          (omega (arith, trim_end_le result.0 result.1, copied.end, copied.size))
          (subst (All IsTitleChar) (sym text)
            (clean_text-IsTitleChar (capacity - 1) (c_string source)))
        ∙ text
