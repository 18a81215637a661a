-- ===== src/Icy/Client.antt =====
-- src/stream/icy.c, the receiving side: a client that knows ICY_METAINT takes a stream apart.
use mpxcast.Prelude.{
  ℕ, zero, suc, ◌+◌, ◌-◌, ◌*◌, ◌≤◌, ◌≡◌, refl, ap, ◌∙◌, Bool, true, false, List, [], ◌∷◌, ◌++◌,
  arith, if◌then◌else◌, length, get_or,
}
use mpxcast.Icy.{metaint}

-- Where a client is: so many bytes of audio before a length byte, or so many of a block left.
pub data Client : Type 0 where
  audio block : ℕ → Client

-- After a length byte, or after a byte of the block.
abbrev pub block_or_audio : ℕ → Client
block_or_audio zero = audio metaint
block_or_audio (suc n) = block (suc n)

abbrev pub step : Client → ℕ → Client
step (audio zero) byte = block_or_audio (byte * 16)
step (audio (suc k)) byte = audio k
step (block n) byte = block_or_audio (n - 1)

abbrev pub is_audio : Client → Bool
is_audio (audio zero) = false
is_audio (audio (suc k)) = true
is_audio (block n) = false

-- The state after the bytes, and the audio among them.
unfoldable pub hear : Client → List ℕ → Client × List ℕ
hear client [] = (client, [])
hear client (byte ∷ bytes) =
    let rest = hear (step client byte) bytes in
    (rest.0, if is_audio client then byte ∷ rest.1 else rest.1)

if-append :
    (b : Bool) (x : ℕ) (us vs : List ℕ)
    → (if b then x ∷ (us ++ vs) else us ++ vs) ≡ (if b then x ∷ us else us) ++ vs
if-append true x us vs = refl
if-append false x us vs = refl

-- The stream of a client that hears `bytes` and then more.
pub hear-append :
    (client : Client) (xs ys : List ℕ)
    → hear client (xs ++ ys)
      ≡ ((hear (hear client xs).0 ys).0, (hear client xs).1 ++ (hear (hear client xs).0 ys).1)
unfolding hear
hear-append client [] ys = refl
hear-append client (x ∷ xs) ys =
    ap (λ (p : Client × List ℕ). (p.0, if is_audio client then x ∷ p.1 else p.1))
      (hear-append (step client x) xs ys)
    ∙ ap (λ (heard : List ℕ). ((hear (hear (step client x) xs).0 ys).0, heard))
        (if-append (is_audio client) x (hear (step client x) xs).1
          (hear (hear (step client x) xs).0 ys).1)

pub hear-audio :
    (k : ℕ) (bytes : List ℕ)
    → length bytes ≤ k
    → hear (audio k) bytes ≡ (audio (k - length bytes), bytes)
unfolding hear
hear-audio k [] h = ap (λ n. (audio n, [])) {x = k} {y = k - 0} (omega arith)
hear-audio zero (x ∷ xs) h = absurd (omega arith)
hear-audio (suc k) (x ∷ xs) h =
    ap (λ (p : Client × List ℕ). (p.0, x ∷ p.1)) (hear-audio k xs (omega arith))
    ∙ ap (λ n. (audio n, x ∷ xs)) {x = k - length xs} {y = suc k - suc (length xs)} (omega arith)

hear-block :
    (n : ℕ) (bytes : List ℕ)
    → length bytes ≡ n
    → hear (block_or_audio n) bytes ≡ (audio metaint, [])
unfolding hear
hear-block zero [] h = refl
hear-block zero (x ∷ xs) h = absurd (omega arith)
hear-block (suc n) [] h = absurd (omega arith)
hear-block (suc n) (x ∷ xs) h =
    ap (λ m. hear (block_or_audio m) xs) {x = suc n - 1} {y = n} (omega arith)
    ∙ hear-block n xs (omega arith)

-- A block that announces its own length.
abbrev pub IsBlock : List ℕ → Type 0
IsBlock bytes = length bytes ≡ 1 + get_or bytes 0 0 * 16

pub hear-IsBlock : (bytes : List ℕ) → IsBlock bytes → hear (audio 0) bytes ≡ (audio metaint, [])
unfolding hear
hear-IsBlock [] h = absurd (omega arith)
hear-IsBlock (x ∷ xs) h = hear-block (x * 16) xs (omega arith)
