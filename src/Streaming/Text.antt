-- ===== src/Streaming/Text.antt =====
-- Python's texts as lists of code points, with the methods that
-- python/tom/voice/sentence_streamer.py calls. The tables of Unicode are a parameter.
use tom.Prelude.{
  ℕ, zero, suc, ◌+◌, ◌-◌, Bool, true, false, ◌&&◌, ◌||◌, Option, none, some, List, [], ◌∷◌, ◌++◌,
  ◌==◌, if◌then◌else◌,
}

abbrev pub Text : Type 0
Text = List ℕ

-- str.isspace, str.isalpha and str.isdigit of one character, and str.lower.
pub record Unicode : Type 0 where
  pub is_space : ℕ → Bool
  pub is_alpha : ℕ → Bool
  pub is_digit : ℕ → Bool
  pub lower : Text → Text

abbrev pub take {ℓ} : {A : Type ℓ} → ℕ → List A → List A
take zero xs = []
take (suc n) [] = []
take (suc n) (x ∷ xs) = x ∷ take n xs

abbrev pub drop {ℓ} : {A : Type ℓ} → ℕ → List A → List A
drop zero xs = xs
drop (suc n) [] = []
drop (suc n) (x ∷ xs) = drop n xs

abbrev pub get_elem? {ℓ} : {A : Type ℓ} → List A → ℕ → Option A
get_elem? [] i = none
get_elem? (x ∷ xs) zero = some x
get_elem? (x ∷ xs) (suc i) = get_elem? xs i

-- buf[start:end]
abbrev pub slice : Text → ℕ → ℕ → Text
slice buf start end = take (end - start) (drop start buf)

abbrev pub is_empty {ℓ} : {A : Type ℓ} → List A → Bool
is_empty [] = true
is_empty (x ∷ xs) = false

abbrev pub concat : List Text → Text
concat [] = []
concat (x ∷ xs) = x ++ concat xs

-- ch in " \t\r"
abbrev pub is_blank : ℕ → Bool
is_blank c = c == b' ' || c == 9 || c == 13

abbrev pub same_text : Text → Text → Bool
same_text [] [] = true
same_text [] (d ∷ ds) = false
same_text (c ∷ cs) [] = false
same_text (c ∷ cs) (d ∷ ds) = c == d && same_text cs ds

abbrev pub is_prefix : Text → Text → Bool
is_prefix [] rest = true
is_prefix (c ∷ cs) [] = false
is_prefix (c ∷ cs) (d ∷ ds) = c == d && is_prefix cs ds

module _ (u : Unicode) where
  unfoldable pub lstrip : Text → Text
  lstrip [] = []
  lstrip (c ∷ cs) = if u.is_space c then lstrip cs else c ∷ cs

  unfoldable pub rstrip : Text → Text
  rstrip [] = []
  rstrip (c ∷ cs) = let rest = rstrip cs in if u.is_space c && is_empty rest then [] else c ∷ rest

  unfoldable pub strip : Text → Text
  unfolding lstrip rstrip
  strip cs = rstrip (lstrip cs)

  -- A word that has begun is closed, if it is one.
  close : Text → List Text → List Text
  close word rest = if is_empty word then rest else word ∷ rest

  -- str.split(), with the word that has begun.
  unfoldable pub split_from : Text → Text → List Text
  unfolding close
  split_from word [] = close word []
  split_from word (c ∷ cs) =
      let new = close word (split_from [] cs) in
      let more = split_from (word ++ c ∷ []) cs in if u.is_space c then new else more

  unfoldable pub split : Text → List Text
  unfolding split_from
  split cs = split_from [] cs

  -- Whether the text ends in a space.
  unfoldable pub ends_in_space : Text → Bool
  ends_in_space [] = false
  ends_in_space (c ∷ []) = u.is_space c
  ends_in_space (c ∷ d ∷ cs) = ends_in_space (d ∷ cs)

-- words[:-1]
abbrev pub drop_last {ℓ} : {A : Type ℓ} → List A → List A
drop_last [] = []
drop_last (x ∷ []) = []
drop_last (x ∷ y ∷ ys) = x ∷ drop_last (y ∷ ys)

-- The position of the first occurrence in what is left from position i.
unfoldable pub find_in : Text → Text → ℕ → Option ℕ
find_in w [] i = if is_empty w then some i else none
find_in w (c ∷ cs) i = if is_prefix w (c ∷ cs) then some i else find_in w cs (i + 1)

-- buf.find(w, pos)
unfoldable pub find : Text → Text → ℕ → Option ℕ
unfolding find_in
find buf w pos = find_in w (drop pos buf) pos
