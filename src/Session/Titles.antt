-- ===== src/Session/Titles.antt =====
-- src/stream/session.c: filling a chunk always succeeds, and leaves a title that may be put out.
use mpxcast.Prelude.{
  ◌+◌, replicate, ◌≤◌, ◌≡◌, refl, sym, ◌∙◌, subst, Bool, true, false, not, ◌&&◌, ◌||◌, arith,
  length, if_both, get_or, ◌==◌,
}
use mpxcast.CString.{c_string, strcmp_equal, strcpy}
use mpxcast.Parser.{StationInfo}
use mpxcast.Icy.{IcyMetadata, icy_metadata_update, title_max_length, icy_copy_text}
use mpxcast.Icy.Update.{IsKept, IsAnnounced, update-IsKept, icy_metadata_init-IsKept}
use mpxcast.Http.{StreamMode, mono, stereo}
use mpxcast.Session.{
  Session, Settings, Dsp, Seconds, session_init, configure, current_rds_info,
  has_complete_radiotext, log_radiotext_update, store_update, refresh_metadata, process_sound,
  fill_pcm_chunk,
}

-- The station information has a radiotext of at most 64 characters, as the parser leaves it.
abbrev pub IsShort : {P D : Type 0} → Dsp P D → Type 0
IsShort {P} dsp = (p : P) → length (c_string (dsp.get_station_info p).radiotext) ≤ 64

-- The title of a session may be put out, where it has titles.
pub record IsTitled (icy : IcyMetadata) : Type 0 where
  pub kept : IsKept icy
  pub announced : icy.enabled ≡ true → IsAnnounced icy

module _ {P D : Type 0} (dsp : Dsp P D) (short : IsShort dsp) where
  pub short_info : (s : Session P D) → length (c_string (current_rds_info dsp s).radiotext) ≤ 64
  unfolding current_rds_info c_string
  short_info s =
      if_both (λ (info : StationInfo). length (c_string info.radiotext) ≤ 64) (not s.rds_enabled) _
        _ (λ _. omega arith) (λ _. short s.pipeline)

  store_update-IsTitled :
      (s : Session P D) (updated : Bool × IcyMetadata)
      → updated.0 ≡ true
      → IsTitled updated.1
      → ((store_update dsp s updated).0 ≡ true) × IsTitled (store_update dsp s updated).1.icy
  store_update-IsTitled s (true, icy) done titled = (refl, titled)
  store_update-IsTitled s (false, icy) done titled = absurd cc

  -- A refresh succeeds where the state of the titles is as every call leaves it.
  pub refresh_metadata-IsTitled :
      (s : Session P D)
      → IsKept s.icy
      → let r = refresh_metadata dsp s in (r.0 ≡ true) × IsTitled r.1.icy
  unfolding refresh_metadata
  refresh_metadata-IsTitled s kept =
      if_both (λ (r : Bool × Session P D). (r.0 ≡ true) × IsTitled r.1.icy) (not s.icy.enabled) _ _
        (λ off. (refl, record { kept = kept; announced = λ on. absurd (ground (arith, on, off)) }))
        λ _.
          let info = (current_rds_info dsp s).radiotext in
          let complete = has_complete_radiotext dsp s in
          let updated = update-IsKept s.icy info complete kept (omega (arith, short_info s)) in
          store_update-IsTitled s (icy_metadata_update s.icy info complete) updated.0
            (record { kept = updated.1; announced = λ _. updated.2 })

  -- The titles of a new session.
  pub start-IsTitled :
      (time : Seconds D) (settings : Settings D)
      → let r = refresh_metadata dsp (configure dsp (session_init dsp time) settings) in
        (r.0 ≡ true) × IsTitled r.1.icy
  start-IsTitled time settings =
      refresh_metadata-IsTitled (configure dsp (session_init dsp time) settings) (
        unfold configure in
        icy_metadata_init-IsKept (settings.rds_enabled && settings.icy_metadata_enabled))

  -- The log changes nothing but the text that was logged.
  pub log_radiotext_update-same :
      (is_debug : Bool) (s : Session P D)
      → let t = log_radiotext_update dsp is_debug s in
        (t.icy ≡ s.icy) × (t.pcm_buffer ≡ s.pcm_buffer)
  unfolding log_radiotext_update
  log_radiotext_update-same is_debug s =
      let same : Session P D → Type 0 = λ t. (t.icy ≡ s.icy) × (t.pcm_buffer ≡ s.pcm_buffer) in
      let size = title_max_length + 1 in
      let radiotext = icy_copy_text (replicate size 0) size (current_rds_info dsp s).radiotext in
      if_both same (not is_debug) _ _ (λ _. (refl, refl))
        λ _.
          if_both same (not (has_complete_radiotext dsp s)) _ _ (λ _. (refl, refl))
            λ _.
              if_both same
                ((get_or radiotext 0 0 == 0) || strcmp_equal radiotext s.logged_radiotext) s
                (record s { logged_radiotext = strcpy s.logged_radiotext radiotext })
                (λ _. (refl, refl)) (λ _. (refl, refl))

  pub sound_icy : (mode : StreamMode) (s : Session P D) → (process_sound dsp s mode).icy ≡ s.icy
  sound_icy mono s = refl
  sound_icy stereo s = refl

  -- Where the radiotext has at most 64 characters and the titles are as every call leaves them,
  -- filling a chunk never fails, at any level of logging, and leaves titles that may be put out.
  pub fill_pcm_chunk-IsTitled :
      (is_debug : Bool) (s : Session P D)
      → IsKept s.icy
      → let r = fill_pcm_chunk dsp is_debug s in (r.0 ≡ true) × IsTitled r.1.icy
  unfolding fill_pcm_chunk
  fill_pcm_chunk-IsTitled is_debug s kept =
      let processed : Session P D = record s { pipeline = dsp.process_live_block s.pipeline } in
      let logged = log_radiotext_update dsp is_debug processed in
      refresh_metadata-IsTitled (process_sound dsp logged logged.mode) (
        subst IsKept
          (sym (sound_icy logged.mode logged ∙ (log_radiotext_update-same is_debug processed).0))
          kept)
