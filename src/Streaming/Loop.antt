-- ===== src/Streaming/Loop.antt =====
-- The standard loop of python/tom/voice/sentence_streamer.py: its end, and what it keeps.
use tom.Prelude.{
  ℕ, zero, suc, ◌+◌, ◌≤◌, ◌≡◌, sym, ap, ◌∙◌, ◌⊎◌, inl, inr, Bool, true, false, ◌||◌, none, List, [],
  ◌∷◌, ◌++◌, length, leb, arith, All, All-append, Bool-cases, Option-cases,
}
use mathlib.Core.List.{append_assoc, append-nil}
use tom.Streaming.Text.{Text, Unicode, drop, get_elem?, slice, is_empty, concat, strip}
use tom.Streaming.Boundaries.{skip_blanks}
use tom.Streaming.Streamer.{Scan, is_cut, cut_at, step, scan}
use tom.Streaming.Content.{content, content-append, content-slice, content_empty, concat-append}

get_elem?-none : (buf : Text) (i : ℕ) → get_elem? buf i ≡ none → length buf ≤ i
get_elem?-none [] i h = omega arith
get_elem?-none (c ∷ cs) zero h = ground arith
get_elem?-none (c ∷ cs) (suc i) h = omega (arith, get_elem?-none cs i h)

module _ (u : Unicode) (flush : Bool) (buf : Text) (min : ℕ) where
  cut_at-moves : (end : ℕ) (s : Scan) → (cut_at u flush buf min end s).i ≡ end
  unfolding cut_at
  cut_at-moves end s = ground arith

  step-moves : (s : Scan) (ch : ℕ) → s.i + 1 ≤ (step u flush buf min s ch).i
  unfolding step
  step-moves s ch =
      let m = cut_at-moves (skip_blanks buf (s.i + 1)) s in
      elim (Bool-cases (is_cut u flush buf s.i ch)) [
        | inl e ↦ rw (e, m) (omega arith)
        | inr e ↦ rw e (omega arith)
      ]

  -- The loop has enough fuel: it ends at the end of the buffer.
  pub scan_ends :
      (n : ℕ) (s : Scan) → length buf ≤ s.i + n → length buf ≤ (scan u flush buf min n s).i
  unfolding scan
  scan_ends zero s h = omega arith
  scan_ends (suc n) s h = elim (Option-cases (get_elem? buf s.i)) [
    | inl e ↦ rw (e, scan) (get_elem?-none buf s.i e)
    | inr (ch, e) ↦
        rw (e, scan) (scan_ends n (step u flush buf min s ch) (omega (arith, step-moves s ch)))
  ]

  -- The pieces so far and what is left of the buffer have its content.
  abbrev pub IsKept : Scan → Type 0
  IsKept s =
      (s.start ≤ s.i) × (content u (concat s.out) ++ content u (drop s.start buf) ≡ content u buf)

  kept_piece :
      (out : List Text) (start end : ℕ)
      → start ≤ end
      → content u (concat out) ++ content u (drop start buf) ≡ content u buf
      → content u (concat (out ++ strip u (slice buf start end) ∷ [])) ++ content u (drop end buf)
        ≡ content u buf
  kept_piece out start end l h =
      let piece = strip u (slice buf start end) in
      rw (concat-append out (piece ∷ []), append-nil piece, content-append u (concat out) piece)
        (append_assoc (content u (concat out)) (content u piece) (content u (drop end buf))
          ∙ ap (λ cs. content u (concat out) ++ cs) (content-slice u buf start end l)
          ∙ h)

  kept_empty :
      (out : List Text) (start end : ℕ)
      → start ≤ end
      → is_empty (strip u (slice buf start end)) ≡ true
      → content u (concat out) ++ content u (drop start buf) ≡ content u buf
      → content u (concat out) ++ content u (drop end buf) ≡ content u buf
  kept_empty out start end l e h =
      let c = content-slice u buf start end l in
      let n = content_empty u (strip u (slice buf start end)) e in
      ap (λ cs. content u (concat out) ++ cs)
        (ap (λ cs. cs ++ content u (drop end buf)) (sym n) ∙ c)
      ∙ h

  cut_at-IsKept :
      (end : ℕ) (s : Scan) → s.start ≤ end → IsKept s → IsKept (cut_at u flush buf min end s)
  unfolding cut_at
  cut_at-IsKept end s l h = elim (Bool-cases (is_empty (strip u (slice buf s.start end)))) [
    | inl e ↦ rw e (omega arith, kept_empty s.out s.start end l e h.1)
    | inr e ↦ rw e elim (Bool-cases (flush || leb min (length (strip u (slice buf s.start end))))) [
      | inl f ↦ rw f (omega arith, kept_piece s.out s.start end l h.1)
      | inr f ↦ rw f (l, h.1)
    ]
  ]

  step-IsKept : (s : Scan) (ch : ℕ) → IsKept s → IsKept (step u flush buf min s ch)
  unfolding step
  step-IsKept s ch h = elim (Bool-cases (is_cut u flush buf s.i ch)) [
    | inl e ↦ rw e (cut_at-IsKept (skip_blanks buf (s.i + 1)) s (let l = h.0 in omega arith) h)
    | inr e ↦ rw e (let l = h.0 in omega arith, h.1)
  ]

  pub scan-IsKept : (n : ℕ) (s : Scan) → IsKept s → IsKept (scan u flush buf min n s)
  unfolding scan
  scan-IsKept zero s h = h
  scan-IsKept (suc n) s h = elim (Option-cases (get_elem? buf s.i)) [
    | inl e ↦ rw (e, scan) h
    | inr (ch, e) ↦ rw (e, scan) (scan-IsKept n (step u flush buf min s ch) (step-IsKept s ch h))
  ]

  -- A piece that is not empty, and long enough unless the streamer is flushed.
  abbrev pub IsPiece : Text → Type 0
  IsPiece piece = (is_empty piece ≡ false) × ((flush ≡ true) ⊎ (min ≤ length piece))

  cut_at-IsPiece :
      (end : ℕ) (s : Scan) → All IsPiece s.out → All IsPiece (cut_at u flush buf min end s).out
  unfolding cut_at
  cut_at-IsPiece end s h = elim (Bool-cases (is_empty (strip u (slice buf s.start end)))) [
    | inl e ↦ rw e h
    | inr e ↦ rw e elim (Bool-cases (flush || leb min (length (strip u (slice buf s.start end))))) [
      | inl f ↦ rw f (All-append IsPiece s.out _ h ((e, long_enough _ f), tt))
      | inr f ↦ rw f h
    ]
  ]
    where
      long_enough : (m : ℕ) → flush || leb min m ≡ true → (flush ≡ true) ⊎ (min ≤ m)
      long_enough m f = ground arith

  step-IsPiece :
      (s : Scan) (ch : ℕ) → All IsPiece s.out → All IsPiece (step u flush buf min s ch).out
  unfolding step
  step-IsPiece s ch h = elim (Bool-cases (is_cut u flush buf s.i ch)) [
    | inl e ↦ rw e (cut_at-IsPiece (skip_blanks buf (s.i + 1)) s h)
    | inr e ↦ rw e h
  ]

  pub scan-IsPiece :
      (n : ℕ) (s : Scan) → All IsPiece s.out → All IsPiece (scan u flush buf min n s).out
  unfolding scan
  scan-IsPiece zero s h = h
  scan-IsPiece (suc n) s h = elim (Option-cases (get_elem? buf s.i)) [
    | inl e ↦ rw (e, scan) h
    | inr (ch, e) ↦ rw (e, scan) (scan-IsPiece n (step u flush buf min s ch) (step-IsPiece s ch h))
  ]
