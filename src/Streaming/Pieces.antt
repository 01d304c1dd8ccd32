-- ===== src/Streaming/Pieces.antt =====
-- The pieces of python/tom/voice/sentence_streamer.py one by one.
use tom.Prelude.{
  Bool, List, suc, zero, ◌⊎◌, ◌∷◌, Option-cases, Option, none, some, leb, ℕ, ◌≤◌, ◌≡◌, refl, subst,
  ◌++◌, inl, inr, true, false, not, ◌&&◌, [], length, arith, All, All-append, All-map, ◌+◌,
  Bool-cases,
}
use tom.Streaming.Text.{get_elem?, slice, strip, Text, Unicode, is_empty}
use tom.Streaming.Boundaries.{Options, skip_blanks}
use tom.Streaming.Streamer.{
  Scan, scan, step, cut_at, is_cut, emit_first, first_cut, new, SentenceStreamer, threshold,
  scanned, standard, drain, push_chunk,
}
use tom.Streaming.Spoken.{push_all}
use tom.Streaming.Loop.{scan-IsPiece, IsPiece}

module _ (u : Unicode) (o : Options) where
  -- A piece that is not empty and has at least n characters.
  abbrev pub IsLong : ℕ → Text → Type 0
  IsLong n piece = (is_empty piece ≡ false) × (n ≤ length piece)

  IsLong-of_piece :
      (buf : Text) (n : ℕ) (piece : Text) → IsPiece u false buf n piece → IsLong n piece
  IsLong-of_piece buf n piece (e, inl f) = (e, absurd (ground arith))
  IsLong-of_piece buf n piece (e, inr l) = (e, l)

  standard-IsLong : (s : SentenceStreamer) → All (IsLong (threshold u o s)) (standard u o false s).0
  unfolding standard scanned
  standard-IsLong s = All-map (IsLong-of_piece s.buf (threshold u o s)) (scanned u o false s).out (
      scan-IsPiece u false s.buf (threshold u o s) (length s.buf)
        (record { start = 0; i = 0; out = []; emitted = s.first_emitted }) tt)

  drain-later :
      (s : SentenceStreamer) → s.first_emitted ≡ true → drain u o false s ≡ standard u o false s
  unfolding drain
  drain-later s e =
      let off : (o.first_chunk_policy && not s.first_emitted && true) ≡ false = ground arith in
      rw off refl

  threshold-later :
      (s : SentenceStreamer) → s.first_emitted ≡ true → threshold u o s ≡ o.min_sentence_chars
  threshold-later s e =
      let off : (o.first_chunk_policy && not s.first_emitted) ≡ false = ground arith in rw off refl

  later-IsLong :
      (s : SentenceStreamer)
      → s.first_emitted ≡ true
      → All (IsLong o.min_sentence_chars) (drain u o false s).0
  later-IsLong s e = rw (drain-later s e) (
      subst (λ n. All (IsLong n) (standard u o false s).0) (threshold-later s e)
        (standard-IsLong s))

  push-IsLong :
      (token : Text) (s : SentenceStreamer)
      → s.first_emitted ≡ true
      → All (IsLong o.min_sentence_chars) (push_chunk u o token s).0
  unfolding push_chunk
  push-IsLong token s e = elim (Bool-cases (is_empty token)) [
    | inl t ↦ rw t tt
    | inr t ↦ rw t (later-IsLong (record s { buf = s.buf ++ token }) e)
  ]

  -- The flag is set when there are pieces, or when it was set before.
  abbrev Tells : Bool → List Text → Bool → Type 0
  Tells before out after = (after ≡ true) ⊎ ((is_empty out ≡ true) × (before ≡ false))

  Tells-none : (b : Bool) → Tells b [] b
  Tells-none true = inl refl
  Tells-none false = inr (refl, refl)

  cut_at-Tells :
      (buf : Text) (min end : ℕ) (before : Bool) (s : Scan)
      → Tells before s.out s.emitted
      → Tells before (cut_at u false buf min end s).out (cut_at u false buf min end s).emitted
  unfolding cut_at
  cut_at-Tells buf min end before s h =
      elim (Bool-cases (is_empty (strip u (slice buf s.start end)))) [
        | inl e ↦ rw e h
        | inr e ↦ rw e elim (Bool-cases (leb min (length (strip u (slice buf s.start end))))) [
          | inl f ↦ rw f (inl refl)
          | inr f ↦ rw f h
        ]
      ]

  step-Tells :
      (buf : Text) (min : ℕ) (before : Bool) (s : Scan) (ch : ℕ)
      → Tells before s.out s.emitted
      → Tells before (step u false buf min s ch).out (step u false buf min s ch).emitted
  unfolding step
  step-Tells buf min before s ch h = elim (Bool-cases (is_cut u false buf s.i ch)) [
    | inl e ↦ rw e (cut_at-Tells buf min (skip_blanks buf (s.i + 1)) before s h)
    | inr e ↦ rw e h
  ]

  scan-Tells :
      (buf : Text) (min : ℕ) (n : ℕ) (before : Bool) (s : Scan)
      → Tells before s.out s.emitted
      → Tells before (scan u false buf min n s).out (scan u false buf min n s).emitted
  unfolding scan
  scan-Tells buf min zero before s h = h
  scan-Tells buf min (suc n) before s h = elim (Option-cases (get_elem? buf s.i)) [
    | inl e ↦ rw (e, scan) h
    | inr (ch, e) ↦
        rw (e, scan)
          (scan-Tells buf min n before (step u false buf min s ch)
            (step-Tells buf min before s ch h))
  ]

  standard-Tells :
      (s : SentenceStreamer)
      → Tells s.first_emitted (standard u o false s).0 (standard u o false s).1.first_emitted
  unfolding standard scanned
  standard-Tells s =
      scan-Tells s.buf (threshold u o s) (length s.buf) s.first_emitted
        (record { start = 0; i = 0; out = []; emitted = s.first_emitted })
        (Tells-none s.first_emitted)

  emit_first-Tells :
      (c : Option (Text × Text)) (s : SentenceStreamer)
      → Tells s.first_emitted (emit_first u o c s).0 (emit_first u o c s).1.first_emitted
  emit_first-Tells none s = standard-Tells s
  emit_first-Tells (some c) s = inl refl

  drain-Tells :
      (s : SentenceStreamer)
      → Tells s.first_emitted (drain u o false s).0 (drain u o false s).1.first_emitted
  unfolding drain
  drain-Tells s = elim (Bool-cases (o.first_chunk_policy && not s.first_emitted && true)) [
    | inl e ↦ rw e (emit_first-Tells (first_cut u o s.buf) s)
    | inr e ↦ rw e (standard-Tells s)
  ]

  push-Tells :
      (token : Text) (s : SentenceStreamer)
      → Tells s.first_emitted (push_chunk u o token s).0 (push_chunk u o token s).1.first_emitted
  unfolding push_chunk
  push-Tells token s = elim (Bool-cases (is_empty token)) [
    | inl e ↦ rw e (Tells-none s.first_emitted)
    | inr e ↦ rw e (drain-Tells (record s { buf = s.buf ++ token }))
  ]

  -- The flag stays set.
  push-first_emitted :
      (token : Text) (s : SentenceStreamer)
      → s.first_emitted ≡ true
      → (push_chunk u o token s).1.first_emitted ≡ true
  push-first_emitted token s e = elim (push-Tells token s) [
    | inl t ↦ t
    | inr n ↦ absurd (ground arith)
  ]

  push_all-first_emitted :
      (tokens : List Text) (s : SentenceStreamer)
      → s.first_emitted ≡ true
      → (push_all u o tokens s).1.first_emitted ≡ true
  unfolding push_all
  push_all-first_emitted [] s e = e
  push_all-first_emitted (token ∷ tokens) s e =
      push_all-first_emitted tokens (push_chunk u o token s).1 (push-first_emitted token s e)

  tail_kept : (a b : List Text) → is_empty a ≡ true → is_empty (a ++ b) ≡ false → is_empty b ≡ false
  tail_kept [] b e h = h
  tail_kept (x ∷ a) b e h = absurd (ground arith)

  -- A piece sets the flag.
  pieces_set :
      (tokens : List Text) (s : SentenceStreamer)
      → is_empty (push_all u o tokens s).0 ≡ false
      → (push_all u o tokens s).1.first_emitted ≡ true
  unfolding push_all
  pieces_set [] s h = absurd (ground arith)
  pieces_set (token ∷ tokens) s h =
      let s' = (push_chunk u o token s).1 in
      elim (push-Tells token s) [
        | inl t ↦ push_all-first_emitted tokens s' t
        | inr n ↦
            pieces_set tokens s'
              (tail_kept (push_chunk u o token s).0 (push_all u o tokens s').0 n.0 h)
      ]

  push_all-IsLong :
      (tokens : List Text) (s : SentenceStreamer)
      → s.first_emitted ≡ true
      → All (IsLong o.min_sentence_chars) (push_all u o tokens s).0
  unfolding push_all
  push_all-IsLong [] s e = tt
  push_all-IsLong (token ∷ tokens) s e =
      let (out, s') = push_chunk u o token s in
      All-append (IsLong o.min_sentence_chars) out (push_all u o tokens s').0
        (push-IsLong token s e) (push_all-IsLong tokens s' (push-first_emitted token s e))

  -- Once the tokens of a turn have brought a piece, each piece that later tokens bring is not empty
  -- and has at least the least number of characters of a sentence.
  pub later_pieces-IsLong :
      (tokens later : List Text)
      → is_empty (push_all u o tokens new).0 ≡ false
      → All (IsLong o.min_sentence_chars) (push_all u o later (push_all u o tokens new).1).0
  later_pieces-IsLong tokens later h =
      push_all-IsLong later (push_all u o tokens new).1 (pieces_set tokens new h)
