-- ===== src/Http/Numbers.antt =====
-- src/stream/http.c: the frequency in a path, as an integer of Hz or a decimal of MHz.
use mpxcast.Prelude.{
  ℕ, suc, ◌+◌, ◌-◌, ◌*◌, ◌%◌, ◌^◌, Bool, true, false, not, ◌&&◌, ◌||◌, Option, none, some, List, [],
  ◌∷◌, ltb, leb, ◌==◌, if◌then◌else◌, length, drop, u32,
}
use mpxcast.Http.{Decimal}

abbrev pub is_digit : ℕ → Bool
is_digit c = leb 48 c && leb c 57

-- The digits of `strtoul` in base 10: the value, and how many they are.
unfoldable pub read_digits : List ℕ → ℕ → ℕ → ℕ × ℕ
read_digits [] value count = (value, count)
read_digits (c ∷ cs) value count =
    let rest = read_digits cs (value * 10 + (c - 48)) (count + 1) in
    if is_digit c then rest else (value, count)

-- `isspace` in the C locale.
abbrev pub is_space : ℕ → Bool
is_space c = (c == 32) || (leb 9 c && leb c 13)

unfoldable pub count_spaces : List ℕ → ℕ
count_spaces [] = 0
count_spaces (c ∷ cs) = let rest = count_spaces cs in if is_space c then suc rest else 0

-- A sign: whether it is a minus, and how many characters it has.
abbrev pub read_sign : List ℕ → Bool × ℕ
read_sign [] = (false, 0)
read_sign (c ∷ cs) = if c == 45 then (true, 1) else if c == 43 then (false, 1) else (false, 0)

-- Too large a number is ULONG_MAX, a minus negates, and without digits nothing was read.
abbrev pub finish_strtoul : Bool → ℕ → ℕ × ℕ → ℕ × ℕ
finish_strtoul negative skipped digits =
    let value =
      if leb (2 ^ 64) digits.0
      then 2 ^ 64 - 1
      else if negative
      then (2 ^ 64 - digits.0) % 2 ^ 64
      else digits.0 in
    if digits.1 == 0 then (0, 0) else (value, skipped + digits.1)

abbrev pub strtoul_behind : List ℕ → ℕ → Bool × ℕ → ℕ × ℕ
strtoul_behind text spaces sign =
    finish_strtoul sign.0 (spaces + sign.1) (read_digits (drop (spaces + sign.1) text) 0 0)

-- `strtoul(text, &end, 10)` with 64 bits: the value and `end - text`.
unfoldable pub strtoul : List ℕ → ℕ × ℕ
strtoul text =
    let spaces = count_spaces text in strtoul_behind text spaces (read_sign (drop spaces text))

-- `strchr(text, c) != NULL`
unfoldable pub has_char : ℕ → List ℕ → Bool
has_char c [] = false
has_char c (x ∷ xs) = (x == c) || has_char c xs

abbrev pub is_empty : List ℕ → Bool
is_empty [] = true
is_empty (c ∷ cs) = false

unfoldable pub frequency_of_hz : List ℕ → Option ℕ
frequency_of_hz text =
    let hz = strtoul text in
    if (hz.1 == 0) || not (hz.1 == length text) || (hz.0 == 0) || ltb (2 ^ 32 - 1) hz.0
    then none
    else some (u32 hz.0)

module _ {D : Type 0} (decimal : Decimal D) where
  unfoldable pub frequency_of_mhz : List ℕ → Option ℕ
  frequency_of_mhz text =
      let mhz = decimal.read text in
      let hz = decimal.multiply mhz.0 (decimal.of_ℕ 1000000) in
      if (mhz.1 == 0)
        || not (mhz.1 == length text)
        || not (decimal.is_finite mhz.0)
        || decimal.le mhz.0 (decimal.of_ℕ 0)
      then none
      else if not (decimal.is_finite hz)
          || decimal.lt hz (decimal.of_ℕ 1)
          || decimal.lt (decimal.of_ℕ (2 ^ 32 - 1)) hz
      then none
      else some (u32 (decimal.round hz))

  unfoldable pub parse_frequency_hz : List ℕ → Option ℕ
  parse_frequency_hz text =
      if is_empty text
      then none
      else if has_char 46 text
      then frequency_of_mhz text
      else frequency_of_hz text
