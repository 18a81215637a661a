-- ===== src/Session/Tuned.antt =====
-- src/stream/session.c: a session from its start on, chunk after chunk.
use mpxcast.Prelude.{
  ℕ, ◌*◌, ◌≤◌, ◌<◌, ◌≡◌, refl, sym, ap, ◌∙◌, subst, Bool, true, false, not, ◌&&◌, List, arith,
  length, drop, overwrite, if_both, length-append, length-drop, length-replicate,
}
use mpxcast.Icy.{IcyMetadata, metaint, icy_metadata_init, icy_metadata_update}
use mpxcast.Icy.Update.{IsKept, update-IsKept, icy_metadata_init-IsKept}
use mpxcast.Http.{StreamMode, mono, stereo}
use mpxcast.Session.{
  Session, Settings, Dsp, Seconds, max_audio_frames_per_chunk, session_init, configure,
  current_rds_info, has_complete_radiotext, log_radiotext_update, store_update, refresh_metadata,
  process_sound, fill_pcm_chunk,
}
use mpxcast.Session.Titles.{
  IsShort, IsTitled, short_info, refresh_metadata-IsTitled, log_radiotext_update-same, sound_icy,
}

-- A session whose titles may be put out and whose buffer has its size.
pub record IsTuned {P D : Type 0} (session : Session P D) : Type 0 where
  pub titled : IsTitled session.icy
  pub due_pos : 0 < session.icy.audio_bytes_until_metadata
  pub due_le : session.icy.audio_bytes_until_metadata ≤ metaint
  pub buffer : max_audio_frames_per_chunk * 2 ≤ length session.pcm_buffer

-- What a step leaves as it is.
abbrev Same : {P D : Type 0} → Session P D → Session P D → Type 0
Same before after =
    (after.icy.enabled ≡ before.icy.enabled)
    × (after.icy.audio_bytes_until_metadata ≡ before.icy.audio_bytes_until_metadata)
    × (length before.pcm_buffer ≤ length after.pcm_buffer)

grows : (xs ys : List ℕ) → length ys ≤ length (overwrite xs ys)
grows xs ys = omega (arith, length-append xs (drop (length xs) ys), length-drop (length xs) ys)

module _ {P D : Type 0} (dsp : Dsp P D) (short : IsShort dsp) where
  store_update-Same :
      (s : Session P D) (updated : Bool × IcyMetadata)
      → (updated.1.enabled ≡ s.icy.enabled)
      → (updated.1.audio_bytes_until_metadata ≡ s.icy.audio_bytes_until_metadata)
      → Same s (store_update dsp s updated).1
  store_update-Same s (true, icy) enabled audio = (enabled, audio, omega arith)
  store_update-Same s (false, icy) enabled audio = (enabled, audio, omega arith)

  refresh_metadata-Same : (s : Session P D) → IsKept s.icy → Same s (refresh_metadata dsp s).1
  unfolding refresh_metadata
  refresh_metadata-Same s kept =
      if_both (λ (r : Bool × Session P D). Same s r.1) (not s.icy.enabled) _ _
        (λ _. (refl, refl, omega arith))
        λ _.
          let info = (current_rds_info dsp s).radiotext in
          let complete = has_complete_radiotext dsp s in
          let updated =
            update-IsKept s.icy info complete kept (omega (arith, short_info dsp short s)) in
          store_update-Same s (icy_metadata_update s.icy info complete) updated.3 updated.4

  refresh_metadata-IsTuned :
      (s : Session P D)
      → IsKept s.icy
      → 0 < s.icy.audio_bytes_until_metadata
      → s.icy.audio_bytes_until_metadata ≤ metaint
      → max_audio_frames_per_chunk * 2 ≤ length s.pcm_buffer
      → let r = refresh_metadata dsp s in
        (r.0 ≡ true) × IsTuned r.1 × (r.1.icy.enabled ≡ s.icy.enabled)
  refresh_metadata-IsTuned s kept pos le buffer =
      let refreshed = refresh_metadata-IsTitled dsp short s kept in
      let same = refresh_metadata-Same s kept in
      (
        refreshed.0,
        record {
          titled = refreshed.1;
          due_pos = omega (arith, pos, same.1);
          due_le = omega (arith, le, same.1);
          buffer = omega (arith, buffer, same.2);
        },
        same.0,
      )

  -- A session that starts.
  pub start-IsTuned :
      (time : Seconds D) (settings : Settings D)
      → let r = refresh_metadata dsp (configure dsp (session_init dsp time) settings) in
        (r.0 ≡ true) × IsTuned r.1
  start-IsTuned time settings =
      let tuned =
        refresh_metadata-IsTuned (configure dsp (session_init dsp time) settings)
          (unfold configure in
            icy_metadata_init-IsKept (settings.rds_enabled && settings.icy_metadata_enabled))
          (unfold configure icy_metadata_init in omega arith)
          (unfold configure icy_metadata_init in omega arith)
          (unfold configure session_init in
            omega (arith, length-replicate {A = ℕ} (max_audio_frames_per_chunk * 2) 0)) in
      (tuned.0, tuned.1)

  -- Sound is written over the start of the buffer.
  sound_buffer :
      (mode : StreamMode) (s : Session P D)
      → length s.pcm_buffer ≤ length (process_sound dsp s mode).pcm_buffer
  sound_buffer mono s = grows (dsp.process_mono s.pipeline).1 s.pcm_buffer
  sound_buffer stereo s = grows (dsp.process_stereo s.pipeline).1 s.pcm_buffer

  -- A chunk more: filling succeeds, and the session stays tuned, with titles or without as it was.
  pub fill_pcm_chunk-IsTuned :
      (is_debug : Bool) (s : Session P D)
      → IsTuned s
      → let r = fill_pcm_chunk dsp is_debug s in
        (r.0 ≡ true) × IsTuned r.1 × (r.1.icy.enabled ≡ s.icy.enabled)
  unfolding fill_pcm_chunk
  fill_pcm_chunk-IsTuned is_debug s tuned =
      let processed : Session P D = record s { pipeline = dsp.process_live_block s.pipeline } in
      let logged = log_radiotext_update dsp is_debug processed in
      let same = log_radiotext_update-same dsp short is_debug processed in
      let sounds = process_sound dsp logged logged.mode in
      let same_icy : sounds.icy ≡ s.icy = sound_icy dsp short logged.mode logged ∙ same.0 in
      let refreshed =
        refresh_metadata-IsTuned sounds (subst IsKept (sym same_icy) tuned.titled.kept)
          (subst (λ (i : IcyMetadata). 0 < i.audio_bytes_until_metadata) (sym same_icy)
            tuned.due_pos)
          (subst (λ (i : IcyMetadata). i.audio_bytes_until_metadata ≤ metaint) (sym same_icy)
            tuned.due_le)
          (omega
            (arith, tuned.buffer, sound_buffer logged.mode logged, ap (λ b. length b) same.1)) in
      (refreshed.0, refreshed.1, refreshed.2 ∙ ap (λ (i : IcyMetadata). i.enabled) same_icy)
