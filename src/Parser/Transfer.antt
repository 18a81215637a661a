-- ===== src/Parser/Transfer.antt =====
-- src/rds/parser.c: a whole radiotext, sent in segments of four characters in any order.
use native.Mathlib.Nat.{pow-suc}
use native.Mathlib.Decide.{ℕ_discrete}
use mpxcast.Prelude.{
  ℕ, zero, suc, ◌+◌, ◌*◌, ◌/◌, ◌^◌, ◌≤◌, ◌<◌, bit_or, ◌≡◌, refl, sym, ap, ◌∙◌, subst, ◌≢◌, ◌⊎◌, inl,
  inr, true, not, ◌&&◌, List, [], ◌∷◌, arith, leb, ◌==◌, length, get_or, set, length-set,
  get_or-set_self, get_or-set_ne, if_both, u64, ◌<<<◌,
}
use mpxcast.Float.{Float, float_zero}
use mpxcast.Bits.Mask.{two-pow_pos, zero-bit}
use mpxcast.Parser.{ParserState, sanitize_char, has_bit}
use mpxcast.Parser.Bits.{has_bit→bit, has_bit-insert_self, has_bit-insert_ne}
use mpxcast.Parser.Update.{
  radiotext_seen, write_radiotext_char, update_radiotext_char, radiotext_loop,
  update_radiotext_chars,
}
use mpxcast.Parser.Valid.{IsValid}
use mpxcast.Parser.Valid.Whole.{update_radiotext_chars-IsValid}
use mpxcast.Parser.Complete.{text_char, radiotext_is_complete}
use mpxcast.Parser.Complete.Meaning.{radiotext_is_complete_iff}

two-pow_lt : (i n : ℕ) → i < n → 2 ^ i < 2 ^ n
two-pow_lt i zero h = absurd (omega arith)
two-pow_lt zero (suc n) h = omega (arith, pow-suc 2 n, two-pow_pos n)
two-pow_lt (suc i) (suc n) h = omega (arith, pow-suc 2 i, pow-suc 2 n, two-pow_lt i n (omega arith))

u64-bit : (i : ℕ) → i < 64 → u64 (1 <<< i) ≡ 1 <<< i
u64-bit i h = omega (arith, two-pow_lt i 64 h)

pub sanitize-printable : (c : ℕ) → 32 ≤ c → c < 127 → sanitize_char c ≡ c
unfolding sanitize_char
sanitize-printable c low high = ground arith

-- The characters of the message from `i` on, after the code's cleaning.
abbrev pub Spells : List ℕ → ℕ → List ℕ → Type 0
Spells message i [] = Unit {0}
Spells message i (char ∷ chars) =
    (i < 64) × (sanitize_char char ≡ get_or message i 0) × Spells message (i + 1) chars

-- The four characters of segment `k`, as a group of version A carries them.
abbrev pub segment : List ℕ → ℕ → List ℕ
segment message k =
    let i = k * 4 in
    get_or message i 0
    ∷ get_or message (i + 1) 0
    ∷ get_or message (i + 1 + 1) 0
    ∷ get_or message (i + 1 + 1 + 1) 0
    ∷ []

-- A message of 64 printable characters that are not all spaces.
pub record IsMessage (message : List ℕ) : Type 0 where
  pub printable : (j : ℕ) → j < 64 → (32 ≤ get_or message j 0) × (get_or message j 0 < 127)
  pub shown : ℕ
  pub shown_lt : shown < 64
  pub shown_char : get_or message shown 0 ≢ 32

segment-Spells :
    (message : List ℕ) (k : ℕ)
    → IsMessage message
    → k < 16
    → Spells message (k * 4) (segment message k)
segment-Spells message k m below = (
  omega arith,
  clean (k * 4) (omega arith),
  (
    omega arith,
    clean (k * 4 + 1) (omega arith),
    (
      omega arith,
      clean (k * 4 + 1 + 1) (omega arith),
      (omega arith, clean (k * 4 + 1 + 1 + 1) (omega arith), tt),
    ),
  ),
)
  where
    clean : (j : ℕ) → j < 64 → sanitize_char (get_or message j 0) ≡ get_or message j 0
    clean j h = sanitize-printable _ (m.printable j h).0 (m.printable j h).1

-- Segments as they come: the address of each, and the quality of its group.
abbrev pub Sent {ℓ} : {A : Type ℓ} → ℕ → List (ℕ × A) → Type 0
Sent k [] = ⊥
Sent k (sent ∷ rest) = (k ≡ sent.0) ⊎ Sent k rest

abbrev pub InRange {ℓ} : {A : Type ℓ} → List (ℕ × A) → Type 0
InRange [] = Unit {0}
InRange (sent ∷ rest) = (sent.0 < 16) × InRange rest

module _ {F : Type 0} where
  -- Every character that was received is the one of the message.
  pub record Agrees (message : List ℕ) (s : ParserState F) : Type 0 where
    pub size : length s.info.radiotext ≡ 65
    pub same : (j : ℕ) → j < 64 → radiotext_seen s j ≡ true → text_char s j ≡ get_or message j 0

  -- What one state has received, the other has too.
  abbrev Extends : ParserState F → ParserState F → Type 0
  Extends s t = (j : ℕ) → radiotext_seen s j ≡ true → radiotext_seen t j ≡ true

module _ {F : Type 0} ⦃float : Float F⦄ (message : List ℕ) where
  nothing_seen :
      (s : ParserState F)
      → s.radiotext_seen_mask ≡ 0
      → length s.info.radiotext ≡ 65
      → Agrees message s
  unfolding radiotext_seen
  nothing_seen s empty size = record {
    size = size;
    same = λ j below seen. absurd (
        omega
          (arith, has_bit→bit 0 j (subst (λ mask. has_bit mask j ≡ true) empty seen), zero-bit j));
  }

  write-Agrees :
      (s : ParserState F) (i : ℕ) (quality : F)
      → i < 64
      → Agrees message s
      → let t = write_radiotext_char s i (get_or message i 0) quality in
        Agrees message t × Extends s t × (radiotext_seen t i ≡ true)
  unfolding write_radiotext_char radiotext_seen
  write-Agrees s i quality below agrees =
      let mask = s.radiotext_seen_mask in
      let inserted : (j : ℕ)
          → has_bit (bit_or mask (u64 (1 <<< i))) j ≡ has_bit (bit_or mask (1 <<< i)) j =
        λ j. ap (λ bit. has_bit (bit_or mask bit) j) (u64-bit i below) in
      (
        record {
          size = length-set s.info.radiotext i (get_or message i 0) ∙ agrees.size;
          same = λ j j_below seen. elim (ℕ_discrete i j) [
            | yes e ↦
                subst
                  (λ k.
                    get_or (set s.info.radiotext i (get_or message i 0)) k 0 ≡ get_or message k 0)
                  e (get_or-set_self s.info.radiotext i _ 0 (omega (arith, agrees.size, below)))
            | no ne ↦
                get_or-set_ne s.info.radiotext i j _ 0 ne
                ∙ agrees.same j j_below (sym (inserted j ∙ has_bit-insert_ne mask i j ne) ∙ seen)
          ];
        },
        λ j seen. elim (ℕ_discrete i j) [
          | yes e ↦
              inserted j
              ∙ subst (λ k. has_bit (bit_or mask (1 <<< i)) k ≡ true) e (has_bit-insert_self mask i)
          | no ne ↦ inserted j ∙ has_bit-insert_ne mask i j ne ∙ seen
        ],
        inserted i ∙ has_bit-insert_self mask i,
      )

  update-Agrees :
      (s : ParserState F) (i char : ℕ) (quality : F)
      → i < 64
      → sanitize_char char ≡ get_or message i 0
      → Agrees message s
      → let t = update_radiotext_char s i char quality in
        Agrees message t × Extends s t × (radiotext_seen t i ≡ true)
  unfolding update_radiotext_char
  update-Agrees s i char quality below clean agrees =
      let test =
        radiotext_seen s i
        && not (radiotext_seen s i && (get_or s.info.radiotext i 0 == sanitize_char char))
        && float.lt quality (get_or s.radiotext_quality i float_zero) in
      if_both (λ t. Agrees message t × Extends s t × (radiotext_seen t i ≡ true)) test _ _
        (λ kept. (agrees, λ j seen. seen, ground (arith, kept)))
        λ _.
          subst
            (λ value.
              let t = write_radiotext_char s i value quality in
              Agrees message t × Extends s t × (radiotext_seen t i ≡ true))
            (sym clean) (write-Agrees s i quality below agrees)

  loop-Agrees :
      (i : ℕ) (chars : List ℕ) (quality : F) (s : ParserState F)
      → Spells message i chars
      → Agrees message s
      → let t = radiotext_loop s i chars quality in
        Agrees message t
        × Extends s t
        × ((j : ℕ) → i ≤ j → j < i + length chars → radiotext_seen t j ≡ true)
  unfolding radiotext_loop
  loop-Agrees i [] quality s spells agrees = (agrees, λ j seen. seen, λ j a b. absurd (omega arith))
  loop-Agrees i (char ∷ chars) quality s spells agrees =
      let (one, kept, seen_here) = update-Agrees s i char quality spells.0 spells.1 agrees in
      let (all, extended, seen) =
        loop-Agrees (i + 1) chars quality (update_radiotext_char s i char quality) spells.2 one in
      if_both
        (λ t.
          Agrees message t
          × Extends s t
          × ((j : ℕ) → i ≤ j → j < i + length (char ∷ chars) → radiotext_seen t j ≡ true))
        (leb 64 i) _ _ (λ beyond. absurd (ground (arith, beyond, spells.0)))
        λ _. (
          all,
          λ j seen_before. extended j (kept j seen_before),
          λ j from below. elim (ℕ_discrete i j) [
            | yes e ↦ extended j (
                subst (λ k. radiotext_seen (update_radiotext_char s i char quality) k ≡ true) e
                  seen_here)
            | no ne ↦ seen j (omega (arith, ne)) (omega arith)
          ],
        )

  update_chars-Agrees :
      (s : ParserState F) (position : ℕ) (chars : List ℕ) (quality : F)
      → Spells message position chars
      → Agrees message s
      → let t = update_radiotext_chars s position chars quality in
        Agrees message t
        × Extends s t
        × ((j : ℕ) → position ≤ j → j < position + length chars → radiotext_seen t j ≡ true)
  unfolding update_radiotext_chars radiotext_seen
  update_chars-Agrees s position chars quality spells agrees =
      let (one, extended, seen) = loop-Agrees position chars quality s spells agrees in
      let written = radiotext_loop s position chars quality in
      (
        record {
          size = length-set written.info.radiotext 64 0 ∙ one.size;
          same = λ j below seen_j.
              get_or-set_ne written.info.radiotext 64 j 0 0 (λ e. absurd (omega (arith, e, below)))
              ∙ one.same j below seen_j;
        },
        extended,
        seen,
      )

  -- The writes of the segments, in the order in which they come.
  abbrev pub receive : List (ℕ × F) → ParserState F → ParserState F
  receive [] s = s
  receive (sent ∷ rest) s =
      receive rest (update_radiotext_chars s (sent.0 * 4) (segment message sent.0) sent.1)

  receive-Agrees :
      (segments : List (ℕ × F)) (s : ParserState F)
      → IsMessage message
      → InRange segments
      → Agrees message s
      → let t = receive segments s in
        Agrees message t
        × Extends s t
        × ((k : ℕ)
            → Sent k segments
            → (j : ℕ) → k * 4 ≤ j
            → j < k * 4 + 4
            → radiotext_seen t j ≡ true)
  receive-Agrees [] s m range agrees = (agrees, λ j seen. seen, λ k never. absurd never)
  receive-Agrees (sent ∷ rest) s m range agrees =
      let (one, kept, seen_here) =
        update_chars-Agrees s (sent.0 * 4) (segment message sent.0) sent.1
          (segment-Spells message sent.0 m range.0) agrees in
      let (all, extended, seen) = receive-Agrees rest _ m range.1 one in
      (
        all,
        λ j h. extended j (kept j h),
        λ k found j from below. elim found [
          | inl e ↦ extended j (seen_here j (omega (arith, e)) (omega (arith, e)))
          | inr later ↦ seen k later j from below
        ],
      )

  receive-IsValid :
      (segments : List (ℕ × F)) (s : ParserState F) → IsValid s → IsValid (receive segments s)
  receive-IsValid [] s v = v
  receive-IsValid (sent ∷ rest) s v =
      receive-IsValid rest _ (update_radiotext_chars-IsValid s _ _ _ v)

  -- From a valid state that has seen no character, with a message of 64 printable characters that
  -- are not all spaces: once each of the 16 segments was written at least once, in any order and
  -- with any qualities, every character held is the one of the message and the text is reported as
  -- complete.
  pub message_received :
      (segments : List (ℕ × F)) (s : ParserState F)
      → IsValid s
      → s.radiotext_seen_mask ≡ 0
      → IsMessage message
      → InRange segments
      → ((k : ℕ) → k < 16 → Sent k segments)
      → let t = receive segments s in
        ((j : ℕ) → j < 64 → text_char t j ≡ get_or message j 0) × (radiotext_is_complete t ≡ true)
  message_received segments s v empty m range sent =
      let (agrees, extended, seen) =
        receive-Agrees segments s m range (nothing_seen s empty v.info.radiotext.size) in
      let t = receive segments s in
      let seen_all : (j : ℕ) → j < 64 → radiotext_seen t j ≡ true =
        λ j below. seen (j / 4) (sent (j / 4) (omega arith)) j (omega arith) (omega arith) in
      let held : (j : ℕ) → j < 64 → text_char t j ≡ get_or message j 0 =
        λ j below. agrees.same j below (seen_all j below) in
      (
        held,
        (radiotext_is_complete_iff t (receive-IsValid segments s v).radiotext_mask).1 (record {
          end = 64;
          end_le = omega arith;
          held = λ j below. (
            seen_all j below,
            λ nul. absurd (omega (arith, nul, held j below, (m.printable j below).0)),
          );
          closed = inl refl;
          shown = m.shown;
          shown_lt = m.shown_lt;
          shown_char = λ space. m.shown_char (sym (held m.shown m.shown_lt) ∙ space);
        }),
      )
