-- ===== src/Http/RoundTrip.antt =====
-- src/stream/http.c: the path of every frequency leads to it.
use native.Mathlib.Nat.{pow-suc}
use mpxcast.Prelude.{
  ℕ, zero, suc, ◌+◌, ◌-◌, ◌*◌, ◌/◌, ◌%◌, ◌^◌, ◌≤◌, ◌<◌, ◌≡◌, refl, sym, ap, ap₂, ◌∙◌, subst, Bool,
  false, not, ◌||◌, Option, none, some, List, [], ◌∷◌, ◌++◌, append-nil, append_assoc, arith, ltb,
  leb, ◌==◌, if◌then◌else◌, ltb→lt, or_else, length, drop, All, length-append, All-append, if_both,
  u32,
}
use mpxcast.CString.{same_text}
use mpxcast.Http.{StreamContainer, wav, mpegts, Decimal}
use mpxcast.Http.Numbers.{
  is_digit, read_digits, is_space, count_spaces, read_sign, finish_strtoul, strtoul_behind, strtoul,
  has_char, is_empty, frequency_of_hz, parse_frequency_hz,
}
use mpxcast.Http.Request.{
  extend_before, extension_container, with_frequency, frequency_of, wav_text, ts_text,
  split_last_dot, split_container_extension, parse_path,
}

-- The decimal digits of a number below 10 ^ k.
unfoldable pub decimal_digits : ℕ → ℕ → List ℕ
decimal_digits zero n = []
decimal_digits (suc k) n =
    let high = decimal_digits k (n / 10) in
    if ltb n 10 then (48 + n) ∷ [] else high ++ ((48 + n % 10) ∷ [])

abbrev IsDigit : ℕ → Type 0
IsDigit c = (48 ≤ c) × (c ≤ 57)

-- The digits are at least one and at most `k`, and their value is the number.
record Spells (k n : ℕ) (digits : List ℕ) : Type 0 where
  some_digits : 0 < length digits
  few : length digits ≤ k
  all : All IsDigit digits
  value :
      (rest : List ℕ) (count : ℕ)
      → read_digits (digits ++ rest) 0 count ≡ read_digits rest n (count + length digits)

digit_step :
    (d n : ℕ) (rest : List ℕ) (count : ℕ)
    → d < 10
    → read_digits ((48 + d) ∷ rest) n count ≡ read_digits rest (n * 10 + d) (count + 1)
unfolding read_digits
digit_step d n rest count h =
    if_both (λ (r : ℕ × ℕ). r ≡ read_digits rest (n * 10 + d) (count + 1)) (is_digit (48 + d)) _ _
      (λ _.
        ap (λ v. read_digits rest v (count + 1)) {x = n * 10 + (48 + d - 48)} {y = n * 10 + d}
          (omega arith))
      (λ other. absurd (ground (arith, other, h)))

one_digit : (k n : ℕ) → n < 10 → Spells (suc k) n ((48 + n) ∷ [])
one_digit k n h = record {
  some_digits = omega arith;
  few = omega arith;
  all = ((omega arith, omega arith), tt);
  value = λ rest count.
      digit_step n 0 rest count h
      ∙ ap (λ v. read_digits rest v (count + 1)) {x = 0 * 10 + n} {y = n} (omega arith);
}

decimal_digits-Spells : (k n : ℕ) → n < 10 ^ suc k → Spells (suc k) n (decimal_digits (suc k) n)
unfolding decimal_digits
decimal_digits-Spells zero n h =
    if_both (Spells 1 n) (ltb n 10) _ _ (λ small. one_digit zero n (ltb→lt n 10 small))
      (λ large. absurd (ground (arith, large, h)))
decimal_digits-Spells (suc k) n h =
    if_both (Spells (suc (suc k)) n) (ltb n 10) _ _
      (λ small. one_digit (suc k) n (ltb→lt n 10 small))
      λ _.
        let high = decimal_digits-Spells k (n / 10) (omega (arith, h, pow-suc 10 (suc k))) in
        let digits = decimal_digits (suc k) (n / 10) in
        let last : List ℕ = (48 + n % 10) ∷ [] in
        record {
          some_digits = omega (arith, length-append digits last);
          few = omega (arith, length-append digits last, high.few);
          all = All-append IsDigit digits last high.all ((omega arith, omega arith), tt);
          value = λ rest count.
              ap (λ (t : List ℕ). read_digits t 0 count) (append_assoc digits last rest)
              ∙ high.value ((48 + n % 10) ∷ rest) count
              ∙ digit_step (n % 10) (n / 10) rest (count + length digits) (omega arith)
              ∙ ap₂ (λ v c. read_digits rest v c) {x = n / 10 * 10 + n % 10} {y = n} (omega arith)
                  (omega (arith, length-append digits last));
        }

no_spaces : (text : List ℕ) → All IsDigit text → count_spaces text ≡ 0
unfolding count_spaces
no_spaces [] h = refl
no_spaces (c ∷ cs) h =
    if_both (λ n. n ≡ 0) (is_space c) _ _ (λ space. absurd (ground (arith, space, h.0))) (λ _. refl)

no_sign : (text : List ℕ) → All IsDigit text → read_sign text ≡ (false, 0)
no_sign [] h = refl
no_sign (c ∷ cs) h =
    if_both (λ (r : Bool × ℕ). r ≡ (false, 0)) (c == 45) _ _
      (λ minus. absurd (ground (arith, minus, h.0)))
      λ _.
        if_both (λ (r : Bool × ℕ). r ≡ (false, 0)) (c == 43) _ _
          (λ plus. absurd (ground (arith, plus, h.0))) (λ _. refl)

strtoul-Spells :
    (k n : ℕ) (text : List ℕ) → Spells k n text → n < 2 ^ 64 → strtoul text ≡ (n, length text)
unfolding strtoul
strtoul-Spells k n text spells small =
    ap (λ spaces. strtoul_behind text spaces (read_sign (drop spaces text)))
      (no_spaces text spells.all)
    ∙ ap (strtoul_behind text 0) (no_sign text spells.all)
    ∙ ap (finish_strtoul false 0) digits
    ∙ if_both (λ (r : ℕ × ℕ). r ≡ (n, length text)) (length text == 0) _ _
        (λ empty. absurd (ground (arith, empty, spells.some_digits)))
        (λ _.
          if_both (λ (v : ℕ). ◌≡◌ {A = ℕ × ℕ} (v, 0 + length text) (n, length text))
            (leb (2 ^ 64) n) _ _ (λ large. absurd (ground (arith, large, small)))
            (λ _. ap (λ c. (n, c)) {x = 0 + length text} {y = length text} (omega arith)))
  where
    digits : read_digits text 0 0 ≡ (n, length text)
    digits =
        ap (λ (t : List ℕ). read_digits t 0 0) (sym (append-nil text))
        ∙ spells.value [] 0
        ∙ unfold read_digits in
          ap (λ c. (n, c)) {x = 0 + length text} {y = length text} (omega arith)

frequency_of_hz-Spells :
    (k n : ℕ) (text : List ℕ) → Spells k n text → 0 < n → n < 2 ^ 32 → frequency_of_hz text ≡ some n
unfolding frequency_of_hz
frequency_of_hz-Spells k n text spells pos small =
    subst
      (λ (r : ℕ × ℕ).
        (if (r.1 == 0) || not (r.1 == length text) || (r.0 == 0) || ltb (2 ^ 32 - 1) r.0
          then none
          else some (u32 r.0))
        ≡ some n)
      (sym (strtoul-Spells k n text spells (omega (arith, small))))
      (if_both (λ (r : Option ℕ). r ≡ some n)
        ((length text == 0) || not (length text == length text) || (n == 0) || ltb (2 ^ 32 - 1) n) _
        _ (λ wrong. absurd (ground (arith, wrong, spells.some_digits, pos, small)))
        (λ _. ap some {x = u32 n} {y = n} (omega (arith, small))))

no_char : (c : ℕ) (text : List ℕ) → All IsDigit text → c < 48 → has_char c text ≡ false
unfolding has_char
no_char c [] h low = refl
no_char c (x ∷ xs) h low = ground (arith, no_char c xs h.1 low, h.0)

no_char-append :
    (c : ℕ) (xs ys : List ℕ)
    → has_char c xs ≡ false
    → has_char c ys ≡ false
    → has_char c (xs ++ ys) ≡ false
unfolding has_char
no_char-append c [] ys hx hy = hy
no_char-append c (x ∷ xs) ys hx hy =
    ground (arith, hx, no_char-append c xs ys (ground (arith, hx)) hy)

abbrev before_split : List ℕ → Option (List ℕ × List ℕ) → Option (List ℕ × List ℕ)
before_split text none = none
before_split text (some split) = some (text ++ split.0, split.1)

-- The last dot of digits and an extension is the one of the extension.
split-digits :
    (text extension : List ℕ) (split : Option (List ℕ × List ℕ))
    → All IsDigit text
    → split_last_dot extension ≡ split
    → split_last_dot (text ++ extension) ≡ before_split text split
unfolding split_last_dot
split-digits [] extension none h e = e
split-digits [] extension (some split) h e = e
split-digits (c ∷ cs) extension none h e =
    subst
      (λ r.
        or_else (extend_before c r) (if c == 46 then some ([], c ∷ (cs ++ extension)) else none)
        ≡ none)
      (sym (split-digits cs extension none h.1 e))
      (if_both (λ (r : Option (List ℕ × List ℕ)). r ≡ none) (c == 46) _ _
        (λ dot. absurd (ground (arith, dot, h.0))) (λ _. refl))
split-digits (c ∷ cs) extension (some split) h e =
    ap
      (λ r.
        or_else (extend_before c r) (if c == 46 then some ([], c ∷ (cs ++ extension)) else none))
      (split-digits cs extension (some split) h.1 e)

-- The texts of an extension, and the container that each names.
pub data Extension : Type 0 where
  no_extension wav_extension ts_extension : Extension

abbrev pub extension_text : Extension → List ℕ
extension_text no_extension = []
extension_text wav_extension = wav_text
extension_text ts_extension = ts_text

abbrev pub container : Extension → StreamContainer
container no_extension = mpegts
container wav_extension = wav
container ts_extension = mpegts

-- The path of a frequency in Hz with an extension.
abbrev pub path_of : ℕ → Extension → List ℕ
path_of hz extension = 47 ∷ (decimal_digits 10 hz ++ extension_text extension)

split_container-digits :
    (text : List ℕ) (extension : Extension)
    → All IsDigit text
    → split_container_extension (text ++ extension_text extension)
      ≡ some (text, container extension)
unfolding split_container_extension
split_container-digits text no_extension h =
    ap (extension_container (text ++ []))
      (split-digits text [] none h (unfold split_last_dot in refl))
    ∙ ap (λ (t : List ℕ). some (t, mpegts)) (append-nil text)
split_container-digits text wav_extension h =
    ap (extension_container (text ++ wav_text))
      (split-digits text wav_text (some ([], wav_text)) h (unfold split_last_dot in refl))
    ∙ (unfold same_text in ap (λ (t : List ℕ). some (t, wav)) (append-nil text))
split_container-digits text ts_extension h =
    ap (extension_container (text ++ ts_text))
      (split-digits text ts_text (some ([], ts_text)) h (unfold split_last_dot in refl))
    ∙ (unfold same_text in ap (λ (t : List ℕ). some (t, mpegts)) (append-nil text))

not_empty : (xs ys : List ℕ) → 0 < length xs → is_empty (xs ++ ys) ≡ false
not_empty [] ys h = absurd (omega arith)
not_empty (x ∷ xs) ys h = refl

parse_frequency-Spells :
    {D : Type 0} (decimal : Decimal D) (k n : ℕ) (text : List ℕ)
    → Spells k n text
    → 0 < n
    → n < 2 ^ 32
    → parse_frequency_hz decimal text ≡ some n
unfolding parse_frequency_hz
parse_frequency-Spells decimal k n text spells pos small =
    if_both (λ (r : Option ℕ). r ≡ some n) (is_empty text) _ _
      (λ empty. absurd (
        ground (arith, empty, ap is_empty (append-nil text), not_empty text [] spells.some_digits)))
      λ _.
        if_both (λ (r : Option ℕ). r ≡ some n) (has_char 46 text) _ _
          (λ dot. absurd (ground (arith, dot, no_char 46 text spells.all (omega arith))))
          (λ _. frequency_of_hz-Spells k n text spells pos small)

extension_has_no_slash : (extension : Extension) → has_char 47 (extension_text extension) ≡ false
unfolding has_char
extension_has_no_slash no_extension = refl
extension_has_no_slash wav_extension = refl
extension_has_no_slash ts_extension = refl

extension_is_short : (extension : Extension) → length (extension_text extension) ≤ 4
extension_is_short no_extension = omega arith
extension_is_short wav_extension = omega arith
extension_is_short ts_extension = omega arith

-- For every frequency in Hz from 1 to 2 ^ 32 - 1, its decimal digits behind a slash, with the
-- extension .wav, .ts or none, are read as that frequency and the container of the extension,
-- whatever the floating-point functions do.
pub parse_path-path_of :
    {D : Type 0} (decimal : Decimal D) (hz : ℕ) (extension : Extension)
    → 0 < hz
    → hz < 2 ^ 32
    → parse_path decimal (path_of hz extension) ≡ some (hz, container extension)
unfolding parse_path
parse_path-path_of decimal hz extension pos small =
    let text = decimal_digits 10 hz in
    let spells = decimal_digits-Spells 9 hz (omega (arith, small)) in
    let path = text ++ extension_text extension in
    let slash =
      no_char-append 47 text (extension_text extension) (no_char 47 text spells.all (omega arith))
        (extension_has_no_slash extension) in
    let short : length path < 64 = omega (
      arith,
      length-append text (extension_text extension),
      spells.few,
      extension_is_short extension,
    ) in
    let full = not_empty text (extension_text extension) spells.some_digits in
    if_both (λ (r : Option (ℕ × StreamContainer)). r ≡ some (hz, container extension))
      (not (47 == 47) || is_empty path || has_char 47 path || leb 64 (length path)) _ _
      (λ wrong. absurd (ground (arith, wrong, slash, short, full)))
      λ _.
        ap (frequency_of decimal) (split_container-digits text extension spells.all)
        ∙ ap (with_frequency (container extension))
            (parse_frequency-Spells decimal 10 hz text spells pos small)
