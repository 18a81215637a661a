-- ===== src/Parser/Complete/Meaning.antt =====
-- src/rds/parser.c: what `rds_parser_radiotext_is_complete` decides.
use mpxcast.Prelude.{
  ℕ, zero, suc, ◌+◌, ◌-◌, ◌^◌, ◌≤◌, ◌<◌, ◌≡◌, refl, sym, subst, ◌≢◌, ◌↔◌, ◌⊎◌, inl, inr, Bool, true,
  false, not, ◌&&◌, ◌||◌, arith, ◌==◌, if◌then◌else◌, Bool-cases, if_both,
}
use mpxcast.Parser.{ParserState}
use mpxcast.Parser.Bits.{has_bit_all}
use mpxcast.Parser.Update.{radiotext_seen}
use mpxcast.Parser.Complete.{
  TextScan, text_char, scan_text, any_non_space, all_seen, radiotext_is_complete,
}

first_or_later : (i j : ℕ) → i ≤ j → (j ≡ i) ⊎ (i + 1 ≤ j)
first_or_later i j h = omega arith

compare_numbers : (i j : ℕ) → (i ≡ j) ⊎ (i < j) ⊎ (j < i)
compare_numbers i j = omega arith

-- The guards of the function, read off its result and put together again.
guards :
    (a b c d : Bool)
    → ((if a then false else if b then false else if c then false else d) ≡ true)
      ↔ ((a ≡ false) × (b ≡ false) × (c ≡ false) × (d ≡ true))
guards a b c d = ground arith

module _ {F : Type 0} where
  -- The text is complete up to its end, which is its first NUL or the last place: each character
  -- before was received and is no NUL, and one of them is no space.
  pub record IsComplete (state : ParserState F) : Type 0 where
    pub end : ℕ
    pub end_le : end ≤ 64
    pub held : (i : ℕ) → i < end → (radiotext_seen state i ≡ true) × (text_char state i ≢ 0)
    pub closed : (end ≡ 64) ⊎ ((radiotext_seen state end ≡ true) × (text_char state end ≡ 0))
    pub shown : ℕ
    pub shown_lt : shown < end
    pub shown_char : text_char state shown ≢ 32

  -- A character other than a space from `i` on and before `stop`.
  abbrev NonSpace : ParserState F → ℕ → ℕ → Type 0
  NonSpace state i stop = (j : ℕ) × (i ≤ j) × (j < stop) × (text_char state j ≢ 32)

  -- What the first loop finds out; it stops at `stop`.
  record Scanned (state : ParserState F) (n i : ℕ) (before : Bool) (scan : TextScan) : Type 0 where
    stop : ℕ
    from : i ≤ stop
    upto : stop ≤ i + n
    nonzero : (j : ℕ) → i ≤ j → j < stop → radiotext_seen state j ≡ true → text_char state j ≢ 0
    outcome :
        ((scan.found_end ≡ true)
          × (scan.end_index ≡ stop)
          × (stop < i + n)
          × (radiotext_seen state stop ≡ true)
          × (text_char state stop ≡ 0))
        ⊎ ((scan.found_end ≡ false) × (scan.end_index ≡ 64) × (stop ≡ i + n))
    sound : scan.has_non_space ≡ true → (before ≡ true) ⊎ NonSpace state i stop
    carried : before ≡ true → scan.has_non_space ≡ true
    complete :
        (j : ℕ)
        → i ≤ j
        → j < stop
        → radiotext_seen state j ≡ true
        → text_char state j ≢ 32
        → scan.has_non_space ≡ true

  scan_text-Scanned :
      (state : ParserState F) (n i : ℕ) (before : Bool)
      → Scanned state n i before (scan_text state n i before)
  unfolding scan_text
  scan_text-Scanned state zero i before = record {
    stop = i;
    from = omega arith;
    upto = omega arith;
    nonzero = λ j a b. absurd (omega arith);
    outcome = inr (refl, refl, omega arith);
    sound = λ h. inl h;
    carried = λ h. h;
    complete = λ j a b. absurd (omega arith);
  }
  scan_text-Scanned state (suc n) i before =
      let after = before || (radiotext_seen state i && not (text_char state i == 32)) in
      let rest = scan_text-Scanned state n (i + 1) after in
      if_both (λ scan. Scanned state (suc n) i before scan)
        (radiotext_seen state i && (text_char state i == 0)) _ _
        (λ here. record {
          stop = i;
          from = omega arith;
          upto = omega arith;
          nonzero = λ j a b. absurd (omega arith);
          outcome = inl (refl, refl, omega arith, ground (arith, here), ground (arith, here));
          sound = λ h. inl h;
          carried = λ h. h;
          complete = λ j a b. absurd (omega arith);
        })
        (λ on. record {
          stop = rest.stop;
          from = omega (arith, rest.from);
          upto = omega (arith, rest.upto);
          nonzero = λ j a b. elim (first_or_later i j a) [
            | inl e ↦
                subst (λ k. radiotext_seen state k ≡ true → text_char state k ≢ 0) (sym e)
                  (λ seen nul. ground (arith, on, seen, nul))
            | inr later ↦ rest.nonzero j later b
          ];
          outcome = elim rest.outcome [
            | inl (f, e, below, seen, nul) ↦ inl (f, e, omega (arith, below), seen, nul)
            | inr (f, e, at_end) ↦ inr (f, e, omega (arith, at_end))
          ];
          sound = λ h. elim (rest.sound h) [
            | inl now ↦ elim (Bool-cases before) [
              | inl held ↦ inl held
              | inr unset ↦ inr (
                i,
                omega arith,
                omega (arith, rest.from),
                λ space. ground (arith, now, unset, space),
              )
            ]
            | inr (j, later, below, shown) ↦ inr (j, omega (arith, later), below, shown)
          ];
          carried = λ h. rest.carried (ground (arith, h));
          complete = λ j a b. elim (first_or_later i j a) [
            | inl e ↦
                subst
                  (λ k.
                    radiotext_seen state k ≡ true
                    → text_char state k ≢ 32
                    → (scan_text state n (i + 1) after).has_non_space ≡ true)
                  (sym e) (λ seen shown. rest.carried (ground (arith, seen, shown)))
            | inr later ↦ rest.complete j later b
          ];
        })

  any_non_space_sound :
      (state : ParserState F) (n i : ℕ) → any_non_space state n i ≡ true → NonSpace state i (i + n)
  unfolding any_non_space
  any_non_space_sound state zero i h = absurd (ground arith)
  any_non_space_sound state (suc n) i h = elim (Bool-cases (text_char state i == 32)) [
    | inl space ↦
        let (j, later, below, shown) =
          any_non_space_sound state n (i + 1) (ground (arith, space, h)) in
        (j, omega (arith, later), omega (arith, below), shown)
    | inr shown ↦ (i, omega arith, omega arith, λ space. ground (arith, space, shown))
  ]

  all_seen_iff :
      (state : ParserState F) (n i : ℕ)
      → (all_seen state n i ≡ true) ↔ ((j : ℕ) → i ≤ j → j < i + n → radiotext_seen state j ≡ true)
  unfolding all_seen
  all_seen_iff state zero i = (λ _ j a b. absurd (omega arith), λ _. refl)
  all_seen_iff state (suc n) i =
      let rest = all_seen_iff state n (i + 1) in
      (
        λ h j a b. elim (first_or_later i j a) [
          | inl e ↦ subst (λ k. radiotext_seen state k ≡ true) (sym e) (ground (arith, h))
          | inr later ↦ rest.0 (ground (arith, h)) j later (omega arith)
        ],
        λ seen.
            let here = seen i (omega arith) (omega arith) in
            let later = rest.1 (λ j a b. seen j (omega arith) (omega arith)) in
            ground (arith, here, later),
      )

  passed :
      (state : ParserState F)
      → let scan = scan_text state 64 0 false in
        (radiotext_is_complete state ≡ true) ↔ (
          ((text_char state 0 == 0) ≡ false)
          × ((not scan.found_end && not (state.radiotext_seen_mask == 2 ^ 64 - 1)) ≡ false)
          × (not (all_seen state scan.end_index 0) ≡ false)
          × ((scan.has_non_space || (not scan.found_end && any_non_space state 64 0)) ≡ true))
  unfolding radiotext_is_complete
  passed state = guards _ _ _ _

  index_is_stop :
      (state : ParserState F) {scan : TextScan} (scanned : Scanned state 64 0 false scan)
      → scan.end_index ≡ scanned.stop
  index_is_stop state scanned = elim scanned.outcome [
    | inl (f, e, below, seen, nul) ↦ e
    | inr (f, e, at_end) ↦ omega (arith, e, at_end)
  ]

  visible_is_found :
      (state : ParserState F) {scan : TextScan} (scanned : Scanned state 64 0 false scan)
      → (scan.has_non_space || (not scan.found_end && any_non_space state 64 0)) ≡ true
      → NonSpace state 0 scanned.stop
  visible_is_found state {scan = scan} scanned visible = elim (Bool-cases scan.has_non_space) [
    | inl now ↦ elim (scanned.sound now) [ inl started ↦ absurd (ground arith) | inr found ↦ found ]
    | inr unseen ↦ elim scanned.outcome [
      | inl (f, e, below, seen, nul) ↦ absurd (ground (arith, visible, unseen, f))
      | inr (f, e, at_end) ↦
          let (j, from, below, shown) =
            any_non_space_sound state 64 0 (ground (arith, visible, unseen)) in
          (j, from, omega (arith, below, at_end), shown)
    ]
  ]

  radiotext_is_complete-IsComplete :
      (state : ParserState F) → radiotext_is_complete state ≡ true → IsComplete state
  radiotext_is_complete-IsComplete state h =
      let (first, full, seen, visible) = (passed state).0 h in
      let scan = scan_text-Scanned state 64 0 false in
      let before_end : (j : ℕ)
          → j < (scan_text state 64 0 false).end_index
          → radiotext_seen state j ≡ true =
        λ j b.
          (all_seen_iff state (scan_text state 64 0 false).end_index 0).0 (ground (arith, seen)) j
            (omega arith) (omega (arith, b)) in
      let end = scan.stop in
      let end_is = index_is_stop state scan in
      let found : NonSpace state 0 end = visible_is_found state scan visible in
      record {
        end = end;
        end_le = omega (arith, scan.upto);
        held = λ i i_lt.
            let s = before_end i (omega (arith, end_is, i_lt)) in
            (s, scan.nonzero i (omega arith) i_lt s);
        closed = elim scan.outcome [
          | inl (f, e, below, seen, nul) ↦ inr (seen, nul)
          | inr (f, e, at_end) ↦ inl (omega (arith, at_end))
        ];
        shown = found.0;
        shown_lt = found.2;
        shown_char = found.3;
      }

  -- The loop stops where the text ends.
  stops_at_end :
      (state : ParserState F) {scan : TextScan} (scanned : Scanned state 64 0 false scan)
      → (c : IsComplete state) → scanned.stop ≡ c.end
  stops_at_end state scanned c = elim (compare_numbers scanned.stop c.end) [
    | inl same ↦ same
    | inr (inl early) ↦ elim scanned.outcome [
      | inl (f, e, below, seen, nul) ↦ absurd ((c.held scanned.stop early).1 nul)
      | inr (f, e, at_end) ↦ absurd (omega (arith, at_end, early, c.end_le))
    ]
    | inr (inr late) ↦ elim c.closed [
      | inl last ↦ absurd (omega (arith, scanned.upto))
      | inr (seen, nul) ↦ absurd (scanned.nonzero c.end (omega arith) late seen nul)
    ]
  ]

  full_or_found :
      (state : ParserState F)
      → state.radiotext_seen_mask < 2 ^ 64
      → {scan : TextScan} (scanned : Scanned state 64 0 false scan) (c : IsComplete state)
      → scanned.stop ≡ c.end
      → (not scan.found_end && not (state.radiotext_seen_mask == 2 ^ 64 - 1)) ≡ false
  unfolding radiotext_seen
  full_or_found state small scanned c at_stop = elim scanned.outcome [
    | inl (f, e, below, seen, nul) ↦ ground (arith, f)
    | inr (f, e, at_end) ↦
        let full =
          has_bit_all 64 state.radiotext_seen_mask small
            (λ i below. (c.held i (omega (arith, below, at_end, at_stop))).0) in
        ground (arith, full)
  ]

  -- For a mask of 64 bits, the function answers true exactly when the text is complete: there is
  -- an end, at the last place or at a NUL that was received, before which every character was
  -- received and none is a NUL, and one of them is no space.
  pub radiotext_is_complete_iff :
      (state : ParserState F)
      → state.radiotext_seen_mask < 2 ^ 64
      → (radiotext_is_complete state ≡ true) ↔ IsComplete state
  radiotext_is_complete_iff state small = (
    radiotext_is_complete-IsComplete state,
    λ c.
        let scan = scan_text-Scanned state 64 0 false in
        let at_end = stops_at_end state scan c in
        let first : (text_char state 0 == 0) ≡ false =
          let ne = (c.held 0 (omega (arith, c.shown_lt))).1 in ground (arith, ne) in
        let visible =
          scan.complete c.shown (omega arith) (omega (arith, at_end, c.shown_lt))
            (c.held c.shown c.shown_lt).0 c.shown_char in
        let all =
          (all_seen_iff state (scan_text state 64 0 false).end_index 0).1
            (λ j a b. (c.held j (omega (arith, b, at_end, index_is_stop state scan))).0) in
        let full = full_or_found state small scan c at_end in
        (passed state).1 (first, full, ground (arith, all), ground (arith, visible)),
  )
