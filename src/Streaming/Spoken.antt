-- ===== src/Streaming/Spoken.antt =====
-- What `SentenceStreamer` (python/tom/voice/sentence_streamer.py) emits of the text that it is given.
use tom.Prelude.{
  ℕ, ◌≤◌, ◌≡◌, refl, sym, ap, ◌∙◌, inl, inr, Bool, true, false, not, ◌&&◌, Option, none, some, List,
  [], ◌∷◌, ◌++◌, length, ltb, arith, if◌then◌else◌, Bool-cases,
}
use mathlib.Core.List.{append_assoc, append-nil}
use tom.Streaming.Text.{Text, Unicode, take, drop, is_empty, concat, strip, lstrip}
use tom.Streaming.Boundaries.{
  Options, find_first_sentence_boundary, find_first_clause_boundary, find_delayed_word_boundary,
}
use tom.Streaming.Streamer.{
  SentenceStreamer, new, cut_before, first_of, is_short, first_cut, threshold, scanned, rest_of,
  standard, emit_first, drain, push_chunk, flush,
}
use tom.Streaming.Content.{
  content, content-append, content-take, content-strip, content_empty, concat-append,
}
use tom.Streaming.Loop.{scan_ends, scan-IsKept}

-- The pieces of a sequence of tokens, and the streamer after it.
unfoldable pub push_all :
    Unicode → Options → List Text → SentenceStreamer → List Text × SentenceStreamer
unfolding push_chunk
push_all u o [] s = ([], s)
push_all u o (token ∷ tokens) s =
    let (out, s') = push_chunk u o token s in
    let (more, s'') = push_all u o tokens s' in (out ++ more, s'')

regroup : (a b c d e f g : Text) → b ++ c ≡ d ++ e → a ++ d ≡ f ++ g → (a ++ b) ++ c ≡ f ++ (g ++ e)
regroup a b c d e f g h k =
    append_assoc a b c
    ∙ ap (λ xs. a ++ xs) h
    ∙ sym (append_assoc a d e)
    ∙ ap (λ xs. xs ++ e) k
    ∙ append_assoc f g e

module _ (u : Unicode) where
  -- The pieces and the buffer after a call have the content of the buffer before it.
  abbrev Keeps : Text → List Text × SentenceStreamer → Type 0
  Keeps buf r = content u (concat r.0) ++ content u r.1.buf ≡ content u buf

  abbrev IsCut : Text → Option (Text × Text) → Type 0
  IsCut buf none = Unit
  IsCut buf (some c) = (is_empty c.0 ≡ false) × (content u c.0 ++ content u c.1 ≡ content u buf)

  IsCut-here :
      (buf : Text) (end : ℕ) (b : Bool)
      → is_empty (strip u (take end buf)) ≡ false
      → IsCut buf (if b then none else some (strip u (take end buf), lstrip u (drop end buf)))
  IsCut-here buf end true e = tt
  IsCut-here buf end false e = (e, content-take u buf end)

  cut_before-IsCut : (buf : Text) (sent end : Option ℕ) → IsCut buf (cut_before u buf sent end)
  unfolding cut_before
  cut_before-IsCut buf sent none = tt
  cut_before-IsCut buf none (some end) = elim (Bool-cases (is_empty (strip u (take end buf)))) [
    | inl e ↦ rw e tt
    | inr e ↦ rw e (e, content-take u buf end)
  ]
  cut_before-IsCut buf (some s) (some end) = elim (Bool-cases (is_empty (strip u (take end buf)))) [
    | inl e ↦ rw e tt
    | inr e ↦ rw e (IsCut-here buf end (not (ltb end s)) e)
  ]

  first_of-IsCut :
      (buf : Text) (a b : Option (Text × Text))
      → IsCut buf a
      → IsCut buf b
      → IsCut buf (first_of u a b)
  first_of-IsCut buf none b h k = k
  first_of-IsCut buf (some c) b h k = h

  if-IsCut :
      (buf : Text) (t : Bool) (a : Option (Text × Text))
      → IsCut buf a
      → IsCut buf (if t then none else a)
  if-IsCut buf true a h = tt
  if-IsCut buf false a h = h

  content-rest_of :
      (o : Options) (left : Text) → content u (concat (rest_of u o (strip u left))) ≡ content u left
  unfolding content
  content-rest_of o left = elim (Bool-cases (is_empty (strip u left))) [
    | inl e ↦ rw e (sym (content_empty u (strip u left) e) ∙ content-strip u left)
    | inr e ↦ rw (e, append-nil (strip u left)) (content-strip u left)
  ]

  module _ (o : Options) where
    first_cut-IsCut : (buf : Text) → IsCut buf (first_cut u o buf)
    unfolding first_cut
    first_cut-IsCut buf =
        let sent = find_first_sentence_boundary u false buf in
        if-IsCut buf (is_short u buf sent) _ (
          first_of-IsCut buf _ _ (cut_before-IsCut buf sent (find_first_clause_boundary u o buf))
            (cut_before-IsCut buf sent (find_delayed_word_boundary u o buf)))

    scanned_keeps :
        (f : Bool) (s : SentenceStreamer)
        → content u (concat (scanned u o f s).out) ++ content u (drop (scanned u o f s).start s.buf)
          ≡ content u s.buf
    unfolding scanned content
    scanned_keeps f s =
        (scan-IsKept u f s.buf (threshold u o s) (length s.buf)
          (record { start = 0; i = 0; out = []; emitted = s.first_emitted }) (omega arith, refl)).1

    -- The standard loop stops at the end of the buffer, not for want of fuel.
    pub scanned_ends : (f : Bool) (s : SentenceStreamer) → length s.buf ≤ (scanned u o f s).i
    unfolding scanned
    scanned_ends f s =
        scan_ends u f s.buf (threshold u o s) (length s.buf)
          (record { start = 0; i = 0; out = []; emitted = s.first_emitted }) (omega arith)

    standard-Keeps : (s : SentenceStreamer) → Keeps s.buf (standard u o false s)
    unfolding standard scanned content
    standard-Keeps s = scanned_keeps false s

    -- A flush leaves nothing behind.
    standard_flush :
        (s : SentenceStreamer)
        → (content u (concat (standard u o true s).0) ≡ content u s.buf)
          × ((standard u o true s).1.buf ≡ [])
    unfolding standard
    standard_flush s =
        let end = scanned u o true s in
        let left = drop end.start s.buf in
        (
          ap (content u) (concat-append end.out (rest_of u o (strip u left)))
              ∙ content-append u (concat end.out) (concat (rest_of u o (strip u left)))
              ∙ ap (λ cs. content u (concat end.out) ++ cs) (content-rest_of o left)
              ∙ scanned_keeps true s,
          refl,
        )

    emit_first-Keeps :
        (c : Option (Text × Text)) (s : SentenceStreamer)
        → IsCut s.buf c
        → Keeps s.buf (emit_first u o c s)
    emit_first-Keeps none s h = standard-Keeps s
    emit_first-Keeps (some (piece, rest)) s h =
        ap (λ cs. content u cs ++ content u rest) (append-nil piece) ∙ h.1

    drain-Keeps : (s : SentenceStreamer) → Keeps s.buf (drain u o false s)
    unfolding drain
    drain-Keeps s = elim (Bool-cases (o.first_chunk_policy && not s.first_emitted && true)) [
      | inl e ↦ rw e (emit_first-Keeps (first_cut u o s.buf) s (first_cut-IsCut s.buf))
      | inr e ↦ rw e (standard-Keeps s)
    ]

    push-Keeps :
        (token : Text) (s : SentenceStreamer)
        → content u (concat (push_chunk u o token s).0) ++ content u (push_chunk u o token s).1.buf
          ≡ content u s.buf ++ content u token
    unfolding push_chunk
    push-Keeps token s = elim (Bool-cases (is_empty token)) [
      | inl e ↦
          rw (e, content_empty u token e) (unfold content in sym (append-nil (content u s.buf)))
      | inr e ↦
          rw e (drain-Keeps (record s { buf = s.buf ++ token }) ∙ content-append u s.buf token)
    ]

    push_all-Keeps :
        (tokens : List Text) (s : SentenceStreamer)
        → content u (concat (push_all u o tokens s).0) ++ content u (push_all u o tokens s).1.buf
          ≡ content u s.buf ++ content u (concat tokens)
    unfolding push_all
    push_all-Keeps [] s = unfold content in sym (append-nil (content u s.buf))
    push_all-Keeps (token ∷ tokens) s =
        let (out, s') = push_chunk u o token s in
        let (more, s'') = push_all u o tokens s' in
        rw
          (
            concat-append out more,
            content-append u (concat out) (concat more),
            content-append u token (concat tokens),
          )
          (regroup (content u (concat out)) (content u (concat more)) (content u s''.buf)
            (content u s'.buf) (content u (concat tokens)) (content u s.buf) (content u token)
            (push_all-Keeps tokens s') (push-Keeps token s))

    flush_all :
        (s : SentenceStreamer)
        → (content u (concat (flush u o s).0) ≡ content u s.buf) × ((flush u o s).1.buf ≡ [])
    unfolding flush drain
    flush_all s =
        let e : (o.first_chunk_policy && not s.first_emitted && false) ≡ false = ground arith in
        rw e (standard_flush s)

    -- Of the tokens that a new streamer is given, the pieces that it emits until a flush and at the
    -- flush have all characters but the spaces, in order, and the flush leaves an empty buffer.
    pub all_spoken :
        (tokens : List Text)
        → let (out, s) = push_all u o tokens new in
          let (rest, s') = flush u o s in
          (content u (concat (out ++ rest)) ≡ content u (concat tokens)) × (s'.buf ≡ [])
    unfolding content
    all_spoken tokens =
        let (out, s) = push_all u o tokens new in
        let (rest, s') = flush u o s in
        let f = flush_all s in
        (
          ap (content u) (concat-append out rest)
              ∙ content-append u (concat out) (concat rest)
              ∙ ap (λ cs. content u (concat out) ++ cs) f.0
              ∙ push_all-Keeps tokens new,
          f.1,
        )
