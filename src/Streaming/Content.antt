-- ===== src/Streaming/Content.antt =====
-- The characters of a text that are not spaces, and the cuts of
-- python/tom/voice/sentence_streamer.py that keep them.
use tom.Prelude.{
  ℕ, zero, suc, ◌+◌, ◌-◌, ◌≤◌, ◌≡◌, refl, sym, ap, ◌∙◌, true, List, [], ◌∷◌, ◌++◌, arith,
  if◌then◌else◌,
}
use mathlib.Core.List.{append_assoc}
use tom.Streaming.Text.{Text, Unicode, take, drop, slice, is_empty, concat, lstrip, rstrip, strip}

pub take-append-drop : (n : ℕ) (xs : Text) → take n xs ++ drop n xs ≡ xs
take-append-drop zero xs = refl
take-append-drop (suc n) [] = refl
take-append-drop (suc n) (x ∷ xs) = ap (λ ys. x ∷ ys) (take-append-drop n xs)

drop_nil : (n : ℕ) → drop {A = ℕ} n [] ≡ []
drop_nil zero = refl
drop_nil (suc n) = refl

drop-drop : (m n : ℕ) (xs : Text) → drop m (drop n xs) ≡ drop (n + m) xs
drop-drop m zero xs = ap (λ k. drop k xs) (omega arith)
drop-drop m (suc n) [] = drop_nil m ∙ sym (drop_nil (suc n + m))
drop-drop m (suc n) (x ∷ xs) =
    let e : suc n + m ≡ suc (n + m) = omega arith in rw e (drop-drop m n xs)

slice-append-drop :
    (buf : Text) (start end : ℕ)
    → start ≤ end
    → slice buf start end ++ drop end buf ≡ drop start buf
slice-append-drop buf start end h =
    let e : start + (end - start) ≡ end = omega arith in
    ap (λ xs. slice buf start end ++ xs)
      (ap (λ k. drop k buf) (sym e) ∙ sym (drop-drop (end - start) start buf))
    ∙ take-append-drop (end - start) (drop start buf)

pub concat-append : (xs ys : List Text) → concat (xs ++ ys) ≡ concat xs ++ concat ys
concat-append [] ys = refl
concat-append (x ∷ xs) ys =
    ap (λ zs. x ++ zs) (concat-append xs ys) ∙ sym (append_assoc x (concat xs) (concat ys))

module _ (u : Unicode) where
  -- The characters that are not spaces, in order.
  unfoldable pub content : Text → Text
  content [] = []
  content (c ∷ cs) = if u.is_space c then content cs else c ∷ content cs

  pub content-append : (xs ys : Text) → content (xs ++ ys) ≡ content xs ++ content ys
  unfolding content
  content-append [] ys = refl
  content-append (c ∷ cs) ys = ground (arith, content-append cs ys)

  pub content-lstrip : (cs : Text) → content (lstrip u cs) ≡ content cs
  unfolding content lstrip
  content-lstrip [] = refl
  content-lstrip (c ∷ cs) = ground (arith, content-lstrip cs)

  content-rstrip : (cs : Text) → content (rstrip u cs) ≡ content cs
  unfolding content rstrip
  content-rstrip [] = refl
  content-rstrip (c ∷ cs) = ground (arith, content-rstrip cs)

  pub content-strip : (cs : Text) → content (strip u cs) ≡ content cs
  unfolding strip
  content-strip cs = content-rstrip (lstrip u cs) ∙ content-lstrip cs

  -- A piece that is stripped and what follows it have the content of both.
  pub content-slice :
      (buf : Text) (start end : ℕ)
      → start ≤ end
      → content (strip u (slice buf start end)) ++ content (drop end buf) ≡ content (drop start buf)
  content-slice buf start end h = rw (content-strip (slice buf start end)) (
      sym (content-append (slice buf start end) (drop end buf))
      ∙ ap content (slice-append-drop buf start end h))

  -- The same for the first piece, where the rest is stripped too.
  pub content-take :
      (buf : Text) (end : ℕ)
      → content (strip u (take end buf)) ++ content (lstrip u (drop end buf)) ≡ content buf
  content-take buf end =
      rw (content-strip (take end buf), content-lstrip (drop end buf))
        (sym (content-append (take end buf) (drop end buf)) ∙ ap content (take-append-drop end buf))

  pub content_empty : (cs : Text) → is_empty cs ≡ true → content cs ≡ []
  unfolding content
  content_empty [] h = refl
  content_empty (c ∷ cs) h = ground arith
