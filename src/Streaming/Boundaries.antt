-- ===== src/Streaming/Boundaries.antt =====
-- The tests for the ends of sentences, clauses and words in
-- python/tom/voice/sentence_streamer.py.
use tom.Prelude.{
  ℕ, suc, ◌+◌, Bool, false, not, ◌&&◌, ◌||◌, Option, none, some, List, [], ◌∷◌, ◌++◌, length, leb,
  ◌==◌, if◌then◌else◌,
}
use Prim.Native.Char.{code}
use Prim.Native.String.{String}
use tom.Streaming.Text.{
  Text, Unicode, take, drop, get_elem?, is_blank, same_text, strip, split, ends_in_space, drop_last,
  find,
}

abbrev pub codes : String → Text
codes String.[] = []
codes (String.◌∷◌ c s) = code c ∷ codes s

abbrev abbrevs : List Text
abbrevs =
    codes "mr"
    ∷ codes "mrs"
    ∷ codes "ms"
    ∷ codes "dr"
    ∷ codes "sr"
    ∷ codes "jr"
    ∷ codes "vs"
    ∷ codes "etc"
    ∷ codes "inc"
    ∷ codes "ltd"
    ∷ codes "e.g"
    ∷ codes "i.e"
    ∷ codes "u.s"
    ∷ codes "u.k"
    ∷ codes "prof"
    ∷ codes "st"
    ∷ codes "approx"
    ∷ codes "fig"
    ∷ codes "al"
    ∷ []

is_one_of : List Text → Text → Bool
is_one_of [] token = false
is_one_of (a ∷ rest) token = same_text a token || is_one_of rest token

-- ch in " \t\r\n"
abbrev pub is_white : ℕ → Bool
is_white c = is_blank c || c == 10

-- The constructor's arguments.
pub record Options : Type 0 where
  pub min_sentence_chars : ℕ
  pub first_chunk_policy : Bool
  pub first_chunk_words : ℕ
  pub min_clause_chars : ℕ
  pub min_clause_words : ℕ

-- The position after the blanks that begin at one.
abbrev pub count_blanks : Text → ℕ
count_blanks [] = 0
count_blanks (c ∷ cs) = if is_blank c then suc (count_blanks cs) else 0

abbrev pub skip_blanks : Text → ℕ → ℕ
skip_blanks buf end = end + count_blanks (drop end buf)

module _ (u : Unicode) where
  -- The letters and dots before the position, read backwards: the longest such end of the prefix.
  trailing : Text → Text → Text
  trailing word [] = word
  trailing word (c ∷ cs) = trailing (if u.is_alpha c || c == b'.' then word ++ c ∷ [] else []) cs

  unfoldable pub abbrev_before : Text → ℕ → Bool
  unfolding trailing is_one_of
  abbrev_before buf i = is_one_of abbrevs (u.lower (trailing [] (take i buf)))

  -- Whether the last character is a digit.
  ends_in_digit : Text → Bool
  ends_in_digit [] = false
  ends_in_digit (c ∷ []) = u.is_digit c
  ends_in_digit (c ∷ d ∷ cs) = ends_in_digit (d ∷ cs)

  -- The tests for a dot, by the character after it.
  dot_boundary : Bool → Text → ℕ → Option ℕ → Bool
  unfolding abbrev_before ends_in_digit
  dot_boundary flush buf i (some next) = is_white next && not (abbrev_before buf i)
  dot_boundary flush buf i none =
      not (abbrev_before buf i) && not (ends_in_digit (take i buf) && not flush)

  -- `_is_boundary`, with the character at the position.
  unfoldable pub is_boundary : Bool → Text → ℕ → ℕ → Bool
  unfolding dot_boundary
  is_boundary flush buf i ch =
      ch == b'!' || ch == b'?' || (ch == b'.' && dot_boundary flush buf i (get_elem? buf (i + 1)))

  -- `_find_first_sentence_boundary` from position i, where `rest` begins.
  unfoldable pub find_sentence : Bool → Text → Text → ℕ → Option ℕ
  unfolding is_boundary
  find_sentence flush buf [] i = none
  find_sentence flush buf (ch ∷ rest) i =
      if ch == 10
      then some (i + 1)
      else if is_boundary flush buf i ch
      then some (skip_blanks buf (i + 1))
      else find_sentence flush buf rest (i + 1)

  unfoldable pub find_first_sentence_boundary : Bool → Text → Option ℕ
  unfolding find_sentence
  find_first_sentence_boundary flush buf = find_sentence flush buf buf 0

-- A comma, a semicolon, a colon or a long dash.
abbrev is_clause_mark : ℕ → Bool
is_clause_mark c = c == b',' || c == b';' || c == b':' || c == 8212

-- The first of two results.
abbrev or_else : Option ℕ → Option ℕ → Option ℕ
or_else none rest = rest
or_else (some end) rest = some end

module _ (u : Unicode) (o : Options) where
  -- The end of a clause, if the text before it is long enough to be spoken.
  spoken : Text → ℕ → Option ℕ
  spoken buf end =
      let candidate = strip u (take end buf) in
      if leb o.min_clause_chars (length candidate)
        && leb o.min_clause_words (length (split u candidate))
      then some end
      else none

  -- The same, if white space or nothing follows.
  accept : Text → ℕ → Option ℕ → Option ℕ
  unfolding spoken
  accept buf end none = spoken buf end
  accept buf end (some next) = if is_white next then spoken buf end else none

  -- `_find_first_clause_boundary` from position i, where `rest` begins; a double dash is one mark.
  unfoldable pub find_clause : Text → Text → ℕ → Option ℕ
  unfolding accept
  find_clause buf [] i = none
  find_clause buf (c ∷ []) i = if is_clause_mark c then accept buf (i + 1) none else none
  find_clause buf (c ∷ d ∷ rest) i =
      let one =
        or_else (accept buf (i + 1) (get_elem? buf (i + 1))) (find_clause buf (d ∷ rest) (i + 1)) in
      let two =
        or_else (accept buf (i + 2) (get_elem? buf (i + 2))) (find_clause buf rest (i + 2)) in
      let skip = find_clause buf (d ∷ rest) (i + 1) in
      if is_clause_mark c then one else if c == b'-' && d == b'-' then two else skip

  unfoldable pub find_first_clause_boundary : Text → Option ℕ
  unfolding find_clause
  find_first_clause_boundary buf = find_clause buf buf 0

  -- The end of the words, each looked for from the end of the one before.
  end_of_words : Text → List Text → ℕ → Option ℕ
  end_of_words buf [] pos = some (skip_blanks buf pos)
  end_of_words buf (w ∷ ws) pos = elim (find buf w pos) [
    | none ↦ none
    | some i ↦ end_of_words buf ws (i + length w)
  ]

  unfoldable pub find_delayed_word_boundary : Text → Option ℕ
  unfolding end_of_words
  find_delayed_word_boundary buf =
      let words = split u buf in
      let completed = if ends_in_space u buf then words else drop_last words in
      if leb o.first_chunk_words (length completed)
      then end_of_words buf (take o.first_chunk_words completed) 0
      else none
