-- ===== src/Icy/Wrap.antt =====
-- src/stream/icy.c: what a client hears in the output of `icy_metadata_wrap`.
use mpxcast.Prelude.{
  ℕ, zero, suc, ◌+◌, ◌-◌, ◌*◌, ◌/◌, ◌≤◌, ◌<◌, ◌≡◌, refl, sym, ap, ◌∙◌, subst, true, not, Option,
  some, List, [], ◌∷◌, ◌++◌, append-nil, append_assoc, arith, ltb, ◌==◌, length, take, drop,
  length-append, take-append-drop, length-take, length-drop, if_both,
}
use mpxcast.Icy.{
  IcyMetadata, Wrapped, metaint, wrap_chunk, wrap_round, proceed, wrap_loop, icy_metadata_wrap,
}
use mpxcast.Icy.Client.{Client, audio, hear, hear-append, hear-audio, hear-IsBlock, IsBlock}

-- A state between two calls: some audio is due before the next block, and the block is one.
pub record IsReady (s : IcyMetadata) : Type 0 where
  pub due_pos : 0 < s.audio_bytes_until_metadata
  pub due_le : s.audio_bytes_until_metadata ≤ metaint
  pub block : IsBlock (take s.metadata_length s.metadata_block)

-- The room for `n` bytes of audio and the blocks that fall among them.
abbrev pub room : IcyMetadata → ℕ → ℕ
room s n = n + (metaint - s.audio_bytes_until_metadata + n) / metaint * s.metadata_length

-- A round put `more` out for the bytes of the chunk, with room left for `left` bytes of audio.
record Went (s : IcyMetadata) (bytes output : List ℕ) (left : ℕ) (round : Wrapped) : Type 0 where
  more : List ℕ
  wrote : round.output ≡ some (output ++ more)
  heard :
      hear (audio s.audio_bytes_until_metadata) more
      ≡ (audio round.state.audio_bytes_until_metadata, bytes)
  ready : IsReady round.state
  fits : length more + room round.state left ≤ room s (length bytes + left)

audio_round :
    (s : IcyMetadata) (bytes output : List ℕ) (left : ℕ)
    → IsReady s
    → length bytes < s.audio_bytes_until_metadata
    → Went s bytes output left (record {
      output = some (output ++ bytes);
      state = record s { audio_bytes_until_metadata = s.audio_bytes_until_metadata - length bytes };
    })
audio_round s bytes output left ready below = record {
  more = bytes;
  wrote = refl;
  heard = hear-audio s.audio_bytes_until_metadata bytes (omega arith);
  ready = record {
    due_pos = omega arith;
    due_le = omega (arith, ready.due_le);
    block = ready.block;
  };
  fits = omega (
    arith,
    ap (λ (n : ℕ). n / metaint * s.metadata_length)
        {x = metaint - (s.audio_bytes_until_metadata - length bytes) + left}
        {y = metaint - s.audio_bytes_until_metadata + (length bytes + left)}
        (omega (arith, ready.due_le, below)),
  );
}

-- Where the audio up to a block is put out, there is room for the block.
room_at_block :
    (s : IcyMetadata) (n left : ℕ)
    → IsReady s
    → n ≡ s.audio_bytes_until_metadata
    → room s (n + left) ≡ n + left + (s.metadata_length + (0 + left) / metaint * s.metadata_length)
room_at_block s n left ready at_block = omega (
  arith,
  ap (λ (q : ℕ). q * s.metadata_length)
      {x = (metaint - s.audio_bytes_until_metadata + (n + left)) / metaint}
      {y = 1 + (0 + left) / metaint} (omega (arith, ready.due_le, at_block)),
)

block_round :
    (s : IcyMetadata) (bytes output : List ℕ) (left : ℕ)
    → IsReady s
    → length bytes ≡ s.audio_bytes_until_metadata
    → Went s bytes output left (record {
      output = some ((output ++ bytes) ++ take s.metadata_length s.metadata_block);
      state = record s { audio_bytes_until_metadata = metaint };
    })
block_round s bytes output left ready at_block = record {
  more = bytes ++ take s.metadata_length s.metadata_block;
  wrote = ap some (append_assoc output bytes (take s.metadata_length s.metadata_block));
  heard =
      hear-append (audio s.audio_bytes_until_metadata) bytes
        (take s.metadata_length s.metadata_block)
      ∙ ap
          (λ (p : Client × List ℕ).
            let block_heard = hear p.0 (take s.metadata_length s.metadata_block) in
            (block_heard.0, p.1 ++ block_heard.1))
          (hear-audio s.audio_bytes_until_metadata bytes (omega arith)
            ∙ ap (λ n. (audio n, bytes)) {x = s.audio_bytes_until_metadata - length bytes} {y = 0}
                (omega arith))
      ∙ ap (λ (p : Client × List ℕ). (p.0, bytes ++ p.1))
          (hear-IsBlock (take s.metadata_length s.metadata_block) ready.block)
      ∙ ap (λ (heard : List ℕ). (audio metaint, heard)) (append-nil bytes);
  ready = record { due_pos = omega arith; due_le = omega arith; block = ready.block };
  fits = omega (
    arith,
    length-append bytes (take s.metadata_length s.metadata_block),
    length-take s.metadata_length s.metadata_block,
    room_at_block s (length bytes) left ready at_block,
  );
}

-- With room for it, a round is one of the two.
round-Went :
    (capacity : ℕ) (s : IcyMetadata) (bytes output : List ℕ) (left : ℕ)
    → IsReady s
    → length bytes ≤ s.audio_bytes_until_metadata
    → length output + room s (length bytes + left) ≤ capacity
    → Went s bytes output left (wrap_round capacity s bytes output)
unfolding wrap_round
round-Went capacity s bytes output left ready chunk fits =
    let until = s.audio_bytes_until_metadata - length bytes in
    if_both (Went s bytes output left) (ltb capacity (length output + length bytes)) _ _
      (λ full. absurd (ground (arith, full, fits)))
      λ _.
        if_both (Went s bytes output left) (not (until == 0)) _ _
          (λ before. audio_round s bytes output left ready (ground (arith, before, chunk)))
          λ now.
            let at_block : length bytes ≡ s.audio_bytes_until_metadata =
              ground (arith, now, chunk) in
            if_both (Went s bytes output left)
              (ltb capacity (length (output ++ bytes) + s.metadata_length)) _ _
              (λ full. absurd (
                ground (
                  arith,
                  full,
                  fits,
                  length-append output bytes,
                  room_at_block s (length bytes) left ready at_block,
                )))
              (λ _. block_round s bytes output left ready at_block)

-- What the loop leaves: everything is heard.
pub record IsWrapped (s : IcyMetadata) (body output : List ℕ) (result : Option Wrapped)
    : Type 0 where
  pub more : List ℕ
  pub state : IcyMetadata
  pub returned : result ≡ some (record { output = some (output ++ more); state = state })
  pub heard :
      hear (audio s.audio_bytes_until_metadata) more
      ≡ (audio state.audio_bytes_until_metadata, body)
  pub ready : IsReady state
  pub fits : length more ≤ room s (length body)

-- A round, and then the rest of the loop.
join :
    (s : IcyMetadata) {bytes output body : List ℕ} (round : Wrapped)
    (loop : IcyMetadata → List ℕ → Option Wrapped)
    → (went : Went s bytes output (length body) round)
    → IsWrapped round.state body (output ++ went.more) (loop round.state (output ++ went.more))
    → IsWrapped s (bytes ++ body) output (proceed round.state round.output loop)
join s {bytes = bytes} {output = output} {body = body} round loop went rest = record {
  more = went.more ++ rest.more;
  state = rest.state;
  returned =
      ap (λ o. proceed round.state o loop) went.wrote
      ∙ rest.returned
      ∙ ap (λ o. some (record { output = some o; state = rest.state }))
          (append_assoc output went.more rest.more);
  heard =
      hear-append (audio s.audio_bytes_until_metadata) went.more rest.more
      ∙ ap (λ (p : Client × List ℕ). ((hear p.0 rest.more).0, p.1 ++ (hear p.0 rest.more).1))
          went.heard
      ∙ ap (λ (p : Client × List ℕ). (p.0, bytes ++ p.1)) rest.heard;
  ready = rest.ready;
  fits = omega (
    arith,
    length-append went.more rest.more,
    went.fits,
    rest.fits,
    ap (room s) {x = length bytes + length body} (sym (length-append bytes body)),
  );
}

loop_wraps :
    (fuel capacity : ℕ) (s : IcyMetadata) (body output : List ℕ)
    → length body < fuel
    → IsReady s
    → length output + room s (length body) ≤ capacity
    → IsWrapped s body output (wrap_loop fuel capacity s body output)
unfolding wrap_loop
loop_wraps zero capacity s body output enough ready fits = absurd (omega arith)
loop_wraps (suc fuel) capacity s [] output enough ready fits = record {
  more = [];
  state = s;
  returned = ap (λ o. some (record { output = some o; state = s })) (sym (append-nil output));
  heard = unfold hear in refl;
  ready = ready;
  fits = omega arith;
}
loop_wraps (suc fuel) capacity s (x ∷ xs) output enough ready fits =
    let body = x ∷ xs in
    let chunk = wrap_chunk s body in
    let bytes = take chunk body in
    let size : length bytes ≡ chunk = omega (arith, length-take chunk body) in
    let rest_size = length-drop chunk body in
    let went =
      round-Went capacity s bytes output (length (drop chunk body)) ready (omega (arith, size)) (
        subst (λ n. length output + room s n ≤ capacity) {x = length body}
          {y = length bytes + length (drop chunk body)} (omega (arith, size, rest_size)) fits) in
    let round = wrap_round capacity s bytes output in
    let rest =
      loop_wraps fuel capacity round.state (drop chunk body) (output ++ went.more)
        (omega (arith, rest_size, ready.due_pos)) went.ready
        (omega (
          arith,
          length-append output went.more,
          went.fits,
          fits,
          ap (λ n. room s n) {x = length bytes + length (drop chunk body)} {y = length body}
              (omega (arith, size, rest_size)),
        )) in
    if_both (IsWrapped s body output) (length body == 0) _ _
      (λ empty. absurd (ground (arith, empty)))
      λ _.
        subst (λ heard. IsWrapped s heard output (proceed round.state round.output (loop chunk)))
          (take-append-drop chunk body) (join s round (loop chunk) went rest)
  where
    loop : ℕ → IcyMetadata → List ℕ → Option Wrapped
    loop chunk next next_output = wrap_loop fuel capacity next (drop chunk (x ∷ xs)) next_output

-- With titles enabled, a state between two calls, and room for the body and the blocks that fall
-- into it, the function returns its output, which takes no more than that room, within the rounds
-- that it has. A client that starts with the same count of audio bytes hears exactly the body in
-- the output and has the count of the new state behind it.
pub wrap_heard :
    (s : IcyMetadata) (body : List ℕ) (capacity : ℕ)
    → s.enabled ≡ true
    → IsReady s
    → room s (length body) ≤ capacity
    → IsWrapped s body [] (icy_metadata_wrap s body capacity)
unfolding icy_metadata_wrap
wrap_heard s body capacity on ready fits =
    if_both (IsWrapped s body []) (not s.enabled) _ _ (λ off. absurd (ground (arith, on, off)))
      λ _. loop_wraps (length body + 1) capacity s body [] (omega arith) ready (omega (arith, fits))
