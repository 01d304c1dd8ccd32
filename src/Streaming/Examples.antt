-- ===== src/Streaming/Examples.antt =====
-- The streamer at concrete tokens, and the theorems about it there.
use tom.Prelude.{◌≡◌, refl, true, List, [], ◌∷◌, ◌++◌, leb, ◌&&◌, ◌||◌, ◌==◌, All}
use tom.Streaming.Text.{split, strip, Text, Unicode, concat}
use tom.Streaming.Boundaries.{
  find_first_clause_boundary, find_first_sentence_boundary, Options, codes,
}
use tom.Streaming.Streamer.{new, flush}
use tom.Streaming.Content.{content}
use tom.Streaming.Spoken.{push_all, all_spoken}
use tom.Streaming.Pieces.{IsLong, later_pieces-IsLong}

abbrev ascii : Unicode
ascii = record {
  is_space = λ c. c == 32 || (leb 9 c && leb c 13);
  is_alpha = λ c. (leb 65 c && leb c 90) || (leb 97 c && leb c 122);
  is_digit = λ c. leb 48 c && leb c 57;
  lower = λ cs. cs;
}

abbrev options : Options
options = record {
  min_sentence_chars = 20;
  first_chunk_policy = true;
  first_chunk_words = 7;
  min_clause_chars = 15;
  min_clause_words = 3;
}

abbrev tokens : List Text
tokens = codes "Well, as I said, it " ∷ codes "works. Dr. No" ∷ codes " agrees" ∷ []

cut_at_clause : (push_all ascii options tokens new).0 ≡ codes "Well, as I said," ∷ []
unfolding push_all find_first_sentence_boundary find_first_clause_boundary strip split
cut_at_clause = refl

all_spoken_example :
    (content ascii (
        concat (
          (push_all ascii options tokens new).0
          ++ (flush ascii options (push_all ascii options tokens new).1).0))
      ≡ content ascii (concat tokens))
    × ((flush ascii options (push_all ascii options tokens new).1).1.buf ≡ [])
all_spoken_example = all_spoken ascii options tokens

later_pieces-IsLong_example :
    All
      (IsLong ascii options 20)
      (push_all ascii options
        (codes " It agrees." ∷ codes " And so on." ∷ [])
        (push_all ascii options tokens new).1).0
later_pieces-IsLong_example =
    later_pieces-IsLong ascii options tokens (codes " It agrees." ∷ codes " And so on." ∷ [])
      (rw cut_at_clause refl)
