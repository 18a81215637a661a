-- ===== src/Parser/Reports.antt =====
-- src/rds/parser.c: when `rds_parser_process_group` reports a text as changed.
use mpxcast.Prelude.{
  ℕ, ◌≡◌, refl, ◌≢◌, ◌↔◌, inl, inr, Bool, true, false, not, ◌&&◌, List, arith, ◌==◌, if◌then◌else◌,
  Bool-cases, get_or, if_both,
}
use mpxcast.Float.{Float}
use mpxcast.CString.{c_string, strcmp_equal, strcpy}
use mpxcast.Parser.{ParserState}
use mpxcast.CString.Laws.{strcmp_equal_iff, strcpy_text}
use mpxcast.Parser.Update.{build_ps_preview, build_radiotext_preview}
use mpxcast.Parser.Complete.{radiotext_is_complete}
use mpxcast.Parser.Process.{report, event_init}

-- One text of the event. A change is reported exactly when the text differs from the one that was
-- reported last and is worth it; then it is remembered, and else the old one is kept.
pub record IsTold (worth : Type 0) (changed : Bool) (text before after : List ℕ) : Type 0 where
  pub told : (changed ≡ true) ↔ (worth × (c_string before ≢ c_string text))
  pub remembered : changed ≡ true → c_string after ≡ c_string text
  pub kept : changed ≡ false → after ≡ before

differ_iff : (x y : List ℕ) → (strcmp_equal x y ≡ false) ↔ (c_string x ≢ c_string y)
differ_iff x y = (
  λ no e. let yes = (strcmp_equal_iff x y).1 e in ground (arith, no, yes),
  λ ne. elim (Bool-cases (strcmp_equal x y)) [
    | inl same ↦ absurd (ne ((strcmp_equal_iff x y).0 same))
    | inr differs ↦ differs
  ],
)

-- The flag, and the copy that goes with it.
tells :
    {worth : Type 0} (changed : Bool) (text before : List ℕ)
    → ((changed ≡ true) ↔ (worth × (strcmp_equal before text ≡ false)))
    → IsTold worth changed text before (if changed then strcpy before text else before)
tells changed text before decides = record {
  told = (
    λ h. let found = decides.0 h in (found.0, (differ_iff before text).0 found.1),
    λ h. decides.1 (h.0, (differ_iff before text).1 h.1),
  );
  remembered = λ h.
      if_both (λ after. changed ≡ true → c_string after ≡ c_string text) changed _ _
        (λ _ _. strcpy_text before text) (λ no yes. absurd (ground (arith, no, yes))) h;
  kept = λ h.
      if_both (λ after. changed ≡ false → after ≡ before) changed _ _
        (λ yes no. absurd (ground (arith, no, yes))) (λ _ _. refl) h;
}

-- The three shapes of the test in the code.
guarded :
    (a b : Bool) (c : ℕ)
    → ((a && not b && not (c == 0)) ≡ true) ↔ (((a ≡ true) × (c ≢ 0)) × (b ≡ false))
guarded a b c = ground arith

nonempty : (b : Bool) (c : ℕ) → ((not b && not (c == 0)) ≡ true) ↔ ((c ≢ 0) × (b ≡ false))
nonempty b c = ground arith

always : (b : Bool) → (not b ≡ true) ↔ (Unit {0} × (b ≡ false))
always b = ground arith

module _ {F : Type 0} ⦃float : Float F⦄ where
  -- For each of the name, the radiotext and the two previews: the event reports a change exactly
  -- when the text differs from the one that was reported last and, for the name, is not empty, for
  -- the radiotext, is complete and not empty. A text that is reported is remembered as the last
  -- one, and else the last one is kept.
  pub report_tells :
      (n : ℕ) (s : ParserState F)
      → let e = (report n s).0 in
        let t = (report n s).1 in
        IsTold
          (get_or s.info.ps 0 0 ≢ 0)
          e.ps_changed
          s.info.ps
          s.last_reported_ps
          t.last_reported_ps
        × IsTold
            ((radiotext_is_complete s ≡ true) × (get_or s.info.radiotext 0 0 ≢ 0))
            e.radiotext_changed
            s.info.radiotext
            s.last_reported_radiotext
            t.last_reported_radiotext
        × IsTold Unit e.ps_preview_changed e.ps_preview s.last_reported_ps_preview
            t.last_reported_ps_preview
        × IsTold Unit e.radiotext_preview_changed e.radiotext_preview
            s.last_reported_radiotext_preview t.last_reported_radiotext_preview
  unfolding report
  report_tells n s = (
    tells _ s.info.ps s.last_reported_ps (nonempty _ (get_or s.info.ps 0 0)),
    tells _ s.info.radiotext s.last_reported_radiotext
        (guarded (radiotext_is_complete s) _ (get_or s.info.radiotext 0 0)),
    tells _ (build_ps_preview s event_init.ps_preview) s.last_reported_ps_preview (always _),
    tells _ (build_radiotext_preview s event_init.radiotext_preview)
        s.last_reported_radiotext_preview (always _),
  )
