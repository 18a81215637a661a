-- ===== src/Parser/Valid.antt =====
-- src/rds/parser.c: the invariant of `struct rds_parser_state`, kept by every group.
pub mod Whole
use mpxcast.Prelude.{
  ℕ, zero, suc, ◌+◌, ◌-◌, ◌*◌, ◌%◌, ◌^◌, ◌≤◌, ◌<◌, ◌≡◌, refl, ◌∙◌, inl, inr, Bool, not, ◌&&◌, List,
  [], ◌∷◌, arith, leb, ◌==◌, if◌then◌else◌, length, get_or, set, replicate, All, length-set,
  length-replicate, if_both, All-get_or, All-replicate, u8, u64, ◌>>>◌, ◌<<<◌,
}
use mpxcast.Float.{Float}
use mpxcast.BlockSync.Stream.{Block}
use mpxcast.Bits.Mask.{or-lt}
use mpxcast.Parser.{
  StationInfo, StationEvent, ParserState, has_bit, get_pty, get_group_version,
  get_group_type_number,
}
use mpxcast.Parser.Text.{
  IsChar, IsText, sanitize_char-IsChar, set-IsText, set_nul-IsText, trim_string-IsText,
}
use mpxcast.Parser.Update.{
  ps_seen, radiotext_seen, set_pair, ps_preview_loop, radiotext_preview_loop, write_ps, update_ps,
  clear_radiotext, update_radiotext_char, write_radiotext_char, radiotext_loop,
}
use mpxcast.Parser.Process.{group_type_char, update_info}

-- The station information: every array holds a text, the programme type has five bits.
pub record IsInfo (info : StationInfo) : Type 0 where
  pub group : IsText 2 info.group
  pub pty : info.pty < 2 ^ 5
  pub ps : IsText 8 info.ps
  pub radiotext : IsText 64 info.radiotext

-- The masks have a bit for each segment and each character, with a quality for each.
pub record IsValid {F : Type 0} (s : ParserState F) : Type 0 where
  pub info : IsInfo s.info
  pub ps_mask : s.ps_seen_mask < 2 ^ 4
  pub radiotext_mask : s.radiotext_seen_mask < 2 ^ 64
  pub ps_quality : length s.ps_segment_quality ≡ 4
  pub text_quality : length s.radiotext_quality ≡ 64
  pub reported_ps : IsText 8 s.last_reported_ps
  pub reported_radiotext : IsText 64 s.last_reported_radiotext
  pub reported_ps_preview : IsText 8 s.last_reported_ps_preview
  pub reported_radiotext_preview : IsText 64 s.last_reported_radiotext_preview

-- An event carries texts as well.
pub record IsEvent (event : StationEvent) : Type 0 where
  pub info : IsInfo event.info
  pub ps_preview : IsText 8 event.ps_preview
  pub radiotext_preview : IsText 64 event.radiotext_preview

set_pair-IsText :
    (n : ℕ) (text : List ℕ) (position x y : ℕ)
    → position + 1 < n
    → IsChar x
    → IsChar y
    → IsText n text
    → IsText n (set_pair text position x y)
set_pair-IsText n text position x y below hx hy valid =
    set-IsText n (set text position x) (position + 1) y below hy
      (set-IsText n text position x (omega arith) hx valid)

shown_ps-IsChar :
    (text : List ℕ) (seen : Bool) (i : ℕ)
    → All IsChar text
    → let value = get_or text i 0 in IsChar (if seen && not (value == 0) then value else 46)
shown_ps-IsChar text seen i chars =
    if_both IsChar (seen && not (get_or text i 0 == 0)) _ _
      (λ _. All-get_or IsChar text i 0 (inl refl) chars) (λ _. inr (omega arith, omega arith))

get_group_version-IsChar : (block2 : ℕ) → IsChar (get_group_version block2)
unfolding get_group_version
get_group_version-IsChar block2 =
    if_both IsChar (has_bit block2 11) 66 65 (λ _. inr (omega arith, omega arith))
      (λ _. inr (omega arith, omega arith))

group_type_char-IsChar : (block2 : ℕ) → IsChar (group_type_char (get_group_type_number block2))
unfolding group_type_char get_group_type_number
group_type_char-IsChar block2 = ground arith

segment_bit : (k : ℕ) → k < 4 → 1 <<< k < 2 ^ 4
segment_bit zero h = omega arith
segment_bit (suc zero) h = omega arith
segment_bit (suc (suc zero)) h = omega arith
segment_bit (suc (suc (suc zero))) h = omega arith
segment_bit (suc (suc (suc (suc k)))) h = absurd (omega arith)

pub empty-IsText : (n : ℕ) → IsText n (replicate (suc n) 0)
empty-IsText n = record {
  size = length-replicate (suc n) 0;
  last = all_nul (suc n) n;
  chars = All-replicate IsChar (suc n) 0 (inl refl);
}
  where
    all_nul : (k i : ℕ) → get_or {A = ℕ} (replicate k 0) i 0 ≡ 0
    all_nul zero i = refl
    all_nul (suc k) zero = refl
    all_nul (suc k) (suc i) = all_nul k i

module _ {F : Type 0} where
  pub ps_preview_loop-IsText :
      (s : ParserState F) (n segment : ℕ) (preview : List ℕ)
      → segment + n ≤ 4
      → All IsChar s.info.ps
      → IsText 8 preview
      → IsText 8 (ps_preview_loop s preview n segment)
  unfolding ps_preview_loop
  ps_preview_loop-IsText s zero segment preview h chars valid = valid
  ps_preview_loop-IsText s (suc n) segment preview h chars valid =
      ps_preview_loop-IsText s n (segment + 1) _ (omega arith) chars (
        set_pair-IsText 8 preview (segment * 2) _ _ (omega arith)
          (shown_ps-IsChar s.info.ps (ps_seen s segment) (segment * 2) chars)
          (shown_ps-IsChar s.info.ps (ps_seen s segment) (segment * 2 + 1) chars) valid)

  pub radiotext_preview_loop-IsText :
      (s : ParserState F) (n i : ℕ) (preview : List ℕ)
      → i + n ≤ 64
      → All IsChar s.info.radiotext
      → IsText 64 preview
      → IsText 64 (radiotext_preview_loop s preview n i)
  unfolding radiotext_preview_loop
  radiotext_preview_loop-IsText s zero i preview h chars valid = valid
  radiotext_preview_loop-IsText s (suc n) i preview h chars valid =
      let value = get_or s.info.radiotext i 0 in
      radiotext_preview_loop-IsText s n (i + 1) _ (omega arith) chars (
        set-IsText 64 preview i _ (omega arith)
          (if_both IsChar (radiotext_seen s i) (if value == 0 then 32 else value) 46
            (λ _.
              if_both IsChar (value == 0) 32 value (λ _. inr (omega arith, omega arith))
                (λ _. All-get_or IsChar s.info.radiotext i 0 (inl refl) chars))
            (λ _. inr (omega arith, omega arith)))
          valid)

  pub update_info-IsInfo :
      (first second : Block F) (info : StationInfo)
      → IsInfo info
      → IsInfo (update_info first second info)
  unfolding update_info get_pty
  update_info-IsInfo first second info v = record {
    group = set_nul-IsText 2 _ 2 (
        set-IsText 2 _ 1 _ (omega arith) (get_group_version-IsChar second.data_bits)
          (set-IsText 2 _ 0 _ (omega arith) (group_type_char-IsChar second.data_bits) v.group));
    pty = omega arith;
    ps = v.ps;
    radiotext = v.radiotext;
  }

module _ {F : Type 0} ⦃float : Float F⦄ where
  write_ps-IsValid :
      (s : ParserState F) (segment x y : ℕ) (quality : F)
      → segment < 4
      → IsChar x
      → IsChar y
      → IsValid s
      → IsValid (write_ps s segment x y quality)
  unfolding write_ps
  write_ps-IsValid s segment x y quality below hx hy v = record {
    info = record {
      group = v.info.group;
      pty = v.info.pty;
      ps = trim_string-IsText 8 _ (
          set_nul-IsText 8 _ 8
            (set_pair-IsText 8 s.info.ps (segment * 2) x y (omega arith) hx hy v.info.ps));
      radiotext = v.info.radiotext;
    };
    ps_mask =
        let small = or-lt 4 s.ps_seen_mask (1 <<< segment) v.ps_mask (segment_bit segment below) in
        omega (arith, small);
    radiotext_mask = v.radiotext_mask;
    ps_quality =
        if_both (λ (q : List F). length q ≡ 4) _ _ _
          (λ _. length-set s.ps_segment_quality segment quality ∙ v.ps_quality) (λ _. v.ps_quality);
    text_quality = v.text_quality;
    reported_ps = v.reported_ps;
    reported_radiotext = v.reported_radiotext;
    reported_ps_preview = v.reported_ps_preview;
    reported_radiotext_preview = v.reported_radiotext_preview;
  }

  pub update_ps-IsValid :
      (s : ParserState F) (block2 block4 : ℕ) (quality : F)
      → IsValid s
      → IsValid (update_ps s block2 block4 quality)
  unfolding update_ps
  update_ps-IsValid s block2 block4 quality v =
      if_both IsValid _ _ _ (λ _. v)
        λ _.
          write_ps-IsValid s (u8 (block2 % 2 ^ 2)) _ _ quality (omega arith)
            (sanitize_char-IsChar (u8 (block4 >>> 8))) (sanitize_char-IsChar (u8 (block4 % 2 ^ 8)))
            v

  pub clear_radiotext-IsValid : (s : ParserState F) → IsValid s → IsValid (clear_radiotext s)
  unfolding clear_radiotext
  clear_radiotext-IsValid s v = record {
    info = record {
      group = v.info.group;
      pty = v.info.pty;
      ps = v.info.ps;
      radiotext = empty-IsText 64;
    };
    ps_mask = v.ps_mask;
    radiotext_mask = omega arith;
    ps_quality = v.ps_quality;
    text_quality = refl;
    reported_ps = v.reported_ps;
    reported_radiotext = v.reported_radiotext;
    reported_ps_preview = v.reported_ps_preview;
    reported_radiotext_preview = v.reported_radiotext_preview;
  }

  write_radiotext_char-IsValid :
      (s : ParserState F) (i value : ℕ) (quality : F)
      → i < 64
      → IsChar value
      → IsValid s
      → IsValid (write_radiotext_char s i value quality)
  unfolding write_radiotext_char
  write_radiotext_char-IsValid s i value quality below char v = record {
    info = record {
      group = v.info.group;
      pty = v.info.pty;
      ps = v.info.ps;
      radiotext = set-IsText 64 s.info.radiotext i value below char v.info.radiotext;
    };
    ps_mask = v.ps_mask;
    radiotext_mask = or-lt 64 s.radiotext_seen_mask (u64 (1 <<< i)) v.radiotext_mask (omega arith);
    ps_quality = v.ps_quality;
    text_quality =
        if_both (λ (q : List F). length q ≡ 64) _ _ _
          (λ _. length-set s.radiotext_quality i quality ∙ v.text_quality) (λ _. v.text_quality);
    reported_ps = v.reported_ps;
    reported_radiotext = v.reported_radiotext;
    reported_ps_preview = v.reported_ps_preview;
    reported_radiotext_preview = v.reported_radiotext_preview;
  }

  update_radiotext_char-IsValid :
      (s : ParserState F) (i char : ℕ) (quality : F)
      → i < 64
      → IsValid s
      → IsValid (update_radiotext_char s i char quality)
  unfolding update_radiotext_char
  update_radiotext_char-IsValid s i char quality below v =
      if_both IsValid _ _ _ (λ _. v)
        λ _. write_radiotext_char-IsValid s i _ quality below (sanitize_char-IsChar char) v

  pub radiotext_loop-IsValid :
      (i : ℕ) (chars : List ℕ) (quality : F) (s : ParserState F)
      → IsValid s
      → IsValid (radiotext_loop s i chars quality)
  unfolding radiotext_loop
  radiotext_loop-IsValid i [] quality s v = v
  radiotext_loop-IsValid i (char ∷ chars) quality s v =
      if_both IsValid (leb 64 i) _ _ (λ _. v)
        λ below.
          radiotext_loop-IsValid (i + 1) chars quality (update_radiotext_char s i char quality)
            (update_radiotext_char-IsValid s i char quality (ground (arith, below)) v)
