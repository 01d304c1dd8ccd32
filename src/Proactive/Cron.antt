-- ===== src/Proactive/Cron.antt =====
-- Cron expressions (python/tom/schemas/proactive.py). `none` is a ValueError. A number is a text of
-- ASCII digits: of what `int` reads besides, the validator of a trigger refuses the blanks, signs and
-- underscores, and the other decimal digits of Unicode are not modelled.
use tom.Prelude.{
  ℕ, zero, suc, ◌+◌, ◌-◌, ◌*◌, ◌/◌, ◌%◌, Bool, true, false, ◌&&◌, ◌||◌, Option, none, some, List,
  [], ◌∷◌, ◌++◌, leb, ◌==◌, if◌then◌else◌,
}
use tom.Streaming.Text.{Text, Unicode, is_empty, is_prefix, same_text, strip, split}

-- `time` and `date` of a datetime, in seconds; `weekday` is 0 on Mondays.
pub record DateTime : Type 0 where
  pub stamp : ℕ
  pub year : ℕ
  pub month : ℕ
  pub day : ℕ
  pub weekday : ℕ
  pub time : ℕ

abbrev pub hour : DateTime → ℕ
hour dt = dt.time / 3600

abbrev pub minute : DateTime → ℕ
minute dt = dt.time / 60 % 60

-- str.split with a character.
unfoldable pub split_on : ℕ → Text → Text → List Text
split_on sep word [] = word ∷ []
split_on sep word (c ∷ cs) =
    let new = word ∷ split_on sep [] cs in
    let more = split_on sep (word ++ c ∷ []) cs in if c == sep then new else more

-- int() of a text of digits, with the number read so far.
unfoldable pub digits : ℕ → Text → Option ℕ
digits n [] = some n
digits n (c ∷ cs) =
    let rest = digits (n * 10 + (c - b'0')) cs in if leb b'0' c && leb c b'9' then rest else none

unfoldable pub int : Text → Option ℕ
unfolding digits
int cs = if is_empty cs then none else digits 0 cs

-- `*/` and a number, which may not be 0; a negative one is a ValueError like any other text.
unfoldable pub match_step : Option ℕ → ℕ → ℕ → Option Bool
match_step none value min_val = none
match_step (some zero) value min_val = none
match_step (some (suc step)) value min_val = some ((value - min_val) % suc step == 0)

unfoldable pub match_range : Option ℕ → Option ℕ → ℕ → Option Bool
match_range (some low) (some high) value = some (leb low value && leb value high)
match_range _ _ value = none

unfoldable pub match_bounds : List Text → ℕ → Option Bool
unfolding match_range int
match_bounds (low ∷ high ∷ []) value = match_range (int low) (int high) value
match_bounds _ value = some false

abbrev has_dash : Text → Bool
has_dash [] = false
has_dash (c ∷ cs) = c == b'-' || has_dash cs

unfoldable pub match_number : Option ℕ → ℕ → Option Bool
match_number none value = none
match_number (some n) value = some (n == value)

abbrev drop_two : Text → Text
drop_two (c ∷ d ∷ cs) = cs
drop_two _ = []

unfoldable pub match_part : Text → ℕ → ℕ → Option Bool
unfolding match_step match_bounds match_number int split_on
match_part part value min_val =
    if is_prefix (b'*' ∷ b'/' ∷ []) part
    then match_step (int (drop_two part)) value min_val
    else if has_dash part
    then match_bounds (split_on b'-' [] part) value
    else match_number (int part) value

-- The first part that matches or raises decides.
abbrev or_next : Option Bool → Option Bool → Option Bool
or_next none rest = none
or_next (some true) rest = some true
or_next (some false) rest = rest

module _ (u : Unicode) where
  match_parts : List Text → ℕ → ℕ → Option Bool
  unfolding match_part
  match_parts [] value min_val = some false
  match_parts (p ∷ ps) value min_val =
      let part = strip u p in
      let rest = match_parts ps value min_val in
      if is_empty part then rest else or_next (match_part part value min_val) rest

  -- `_match_cron_field`; its greatest value is not used.
  unfoldable pub match_cron_field : Text → ℕ → ℕ → Option Bool
  unfolding match_parts split_on
  match_cron_field field_expr value min_val =
      let clean = strip u field_expr in
      if same_text clean (b'*' ∷ [])
      then some true
      else match_parts (split_on b',' [] clean) value min_val

  -- The fields in their order; the first that does not match, or raises, decides.
  abbrev and_next : Option Bool → Option Bool → Option Bool
  and_next none rest = none
  and_next (some false) rest = some false
  and_next (some true) rest = rest

  match_fields : List Text → DateTime → Option Bool
  unfolding match_cron_field
  match_fields (a ∷ b ∷ c ∷ d ∷ e ∷ []) dt = and_next (match_cron_field a (minute dt) 0) (
      and_next (match_cron_field b (hour dt) 0) (
        and_next (match_cron_field c dt.day 1)
          (and_next (match_cron_field d dt.month 1) (match_cron_field e ((dt.weekday + 1) % 7) 0))))
  match_fields _ dt = none

  -- `CronTrigger.matches`
  unfoldable pub matches : Text → DateTime → Option Bool
  unfolding match_fields
  matches expression dt = match_fields (split u expression) dt
