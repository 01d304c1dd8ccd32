-- ===== src/Streaming/Streamer.antt =====
-- The methods of `SentenceStreamer` (python/tom/voice/sentence_streamer.py).
use tom.Prelude.{
  ℕ, zero, suc, ◌+◌, Bool, true, false, not, ◌&&◌, ◌||◌, Option, none, some, List, [], ◌∷◌, ◌++◌,
  length, ltb, leb, ◌==◌, if◌then◌else◌,
}
use tom.Streaming.Text.{Text, Unicode, take, drop, get_elem?, slice, is_empty, strip, lstrip, split}
use tom.Streaming.Boundaries.{
  Options, skip_blanks, is_boundary, find_first_sentence_boundary, find_first_clause_boundary,
  find_delayed_word_boundary,
}

pub record SentenceStreamer : Type 0 where
  pub buf : Text
  pub first_emitted : Bool

abbrev pub new : SentenceStreamer
new = record { buf = []; first_emitted = false }

-- `reset` gives the state of a new streamer.
unfoldable pub reset : SentenceStreamer → SentenceStreamer
reset s = record s { buf = []; first_emitted = false }

-- The variables of the standard loop.
pub record Scan : Type 0 where
  pub start : ℕ
  pub i : ℕ
  pub out : List Text
  pub emitted : Bool

module _ (u : Unicode) where
  -- ch == "\n" or ch in ".!?" at a boundary
  unfoldable pub is_cut : Bool → Text → ℕ → ℕ → Bool
  unfolding is_boundary
  is_cut flush buf i ch = ch == 10 || is_boundary u flush buf i ch

  -- The loop's body at the end of a sentence.
  unfoldable pub cut_at : Bool → Text → ℕ → ℕ → Scan → Scan
  cut_at flush buf min_threshold end s =
      let piece = strip u (slice buf s.start end) in
      if is_empty piece
      then record s { start = end; i = end }
      else if flush || leb min_threshold (length piece)
      then record { start = end; i = end; out = s.out ++ piece ∷ []; emitted = true }
      else record s { i = end }

  unfoldable pub step : Bool → Text → ℕ → Scan → ℕ → Scan
  unfolding is_cut cut_at
  step flush buf min_threshold s ch =
      if is_cut flush buf s.i ch
      then cut_at flush buf min_threshold (skip_blanks buf (s.i + 1)) s
      else record s { i = s.i + 1 }

  -- The standard loop, on fuel.
  unfoldable pub scan : Bool → Text → ℕ → ℕ → Scan → Scan
  unfolding step
  scan flush buf min_threshold zero s = s
  scan flush buf min_threshold (suc n) s = elim (get_elem? buf s.i) [
    | none ↦ s
    | some ch ↦ scan flush buf min_threshold n (step flush buf min_threshold s ch)
  ]

  -- A cut of the first chunk, if its end comes before that of the sentence.
  unfoldable pub cut_before : Text → Option ℕ → Option ℕ → Option (Text × Text)
  cut_before buf sent_end none = none
  cut_before buf none (some end) =
      let piece = strip u (take end buf) in
      if is_empty piece then none else some (piece, lstrip u (drop end buf))
  cut_before buf (some sent_end) (some end) =
      let piece = strip u (take end buf) in
      if is_empty piece || not (ltb end sent_end)
      then none
      else some (piece, lstrip u (drop end buf))

  abbrev pub first_of : Option (Text × Text) → Option (Text × Text) → Option (Text × Text)
  first_of none rest = rest
  first_of (some cut) rest = some cut

  -- A sentence of twelve words at most is left to the standard loop.
  abbrev pub is_short : Text → Option ℕ → Bool
  is_short buf none = false
  is_short buf (some sent_end) = leb (length (split u (take sent_end buf))) 12

  module _ (o : Options) where
    -- The first-chunk policy.
    unfoldable pub first_cut : Text → Option (Text × Text)
    unfolding cut_before
    first_cut buf =
        let sent_end = find_first_sentence_boundary u false buf in
        if is_short buf sent_end
        then none
        else first_of (cut_before buf sent_end (find_first_clause_boundary u o buf))
            (cut_before buf sent_end (find_delayed_word_boundary u o buf))

    abbrev pub threshold : SentenceStreamer → ℕ
    threshold s =
        if o.first_chunk_policy && not s.first_emitted
        then o.min_clause_chars
        else o.min_sentence_chars

    -- The standard processing, up to what a flush adds.
    unfoldable pub scanned : Bool → SentenceStreamer → Scan
    unfolding scan
    scanned flush s =
        scan flush s.buf (threshold s) (length s.buf)
          (record { start = 0; i = 0; out = []; emitted = s.first_emitted })

    abbrev pub rest_of : Text → List Text
    rest_of rest = if is_empty rest then [] else rest ∷ []

    unfoldable pub standard : Bool → SentenceStreamer → List Text × SentenceStreamer
    unfolding scanned
    standard flush s =
        let end = scanned flush s in
        let left = drop end.start s.buf in
        if flush
        then (end.out ++ rest_of (strip u left), record { buf = []; first_emitted = end.emitted })
        else (end.out, record { buf = left; first_emitted = end.emitted })

    abbrev pub emit_first : Option (Text × Text) → SentenceStreamer → List Text × SentenceStreamer
    emit_first none s = standard false s
    emit_first (some (piece, rest)) s = (piece ∷ [], record { buf = rest; first_emitted = true })

    unfoldable pub drain : Bool → SentenceStreamer → List Text × SentenceStreamer
    unfolding first_cut standard
    drain flush s =
        if o.first_chunk_policy && not s.first_emitted && not flush
        then emit_first (first_cut s.buf) s
        else standard flush s

    unfoldable pub push_chunk : Text → SentenceStreamer → List Text × SentenceStreamer
    unfolding drain
    push_chunk token s =
        if is_empty token then ([], s) else drain false (record s { buf = s.buf ++ token })

    unfoldable pub flush : SentenceStreamer → List Text × SentenceStreamer
    unfolding drain
    flush s = let (out, s') = drain true s in (out, record s' { first_emitted = false })
