-- ===== src/Permissions/Scanning.antt =====
-- The scan of python/tom/security/permissions.py against the texts that a payload holds.
use tom.Prelude.{
  IsIn, String, ◌≡◌, refl, sym, ◌∙◌, ◌⊎◌, inl, inr, true, false, Option, none, some, List, [], ◌∷◌,
  ◌++◌, arith, str_eq, All,
}
use tom.Permissions.Levels.{TextMethods}
use tom.Permissions.Payloads.{
  Payload, Items, Fields, str, dict, items, other, nil, cons, end, field, is_blocked_command,
  find_in_text, or_else, find_blocked_command, find_in_items, find_in_values,
}
use tom.Permissions.Engine.{is_match}

-- The texts in a payload, in the order of the scan; the keys of a dictionary are not among them.
unfoldable mutual
  pub leaves : Payload → List String
  leaves (str value) = value ∷ []
  leaves (dict fs) = leaves_of_values fs
  leaves (items xs) = leaves_of_items xs
  leaves other = []

  pub leaves_of_items : Items → List String
  leaves_of_items nil = []
  leaves_of_items (cons x xs) = leaves x ++ leaves_of_items xs

  pub leaves_of_values : Fields → List String
  leaves_of_values end = []
  leaves_of_values (field k v fs) = leaves v ++ leaves_of_values fs

-- The first command that is found in the texts, text by text.
unfoldable pub first_found : TextMethods → List String → List String → Option String
first_found py commands [] = none
first_found py commands (value ∷ rest) =
    or_else (find_in_text py commands value) (first_found py commands rest)

or_else_assoc : (a b c : Option String) → or_else (or_else a b) c ≡ or_else a (or_else b c)
or_else_assoc none b c = refl
or_else_assoc (some x) b c = refl

module _ (py : TextMethods) (commands : List String) where
  first_found-append :
      (xs ys : List String)
      → first_found py commands (xs ++ ys)
        ≡ or_else (first_found py commands xs) (first_found py commands ys)
  unfolding first_found
  first_found-append [] ys = refl
  first_found-append (x ∷ xs) ys = rw (first_found-append xs ys) (
      sym (
        or_else_assoc (find_in_text py commands x) (first_found py commands xs)
          (first_found py commands ys)))

  or_else-none : (a : Option String) → or_else a none ≡ a
  or_else-none none = refl
  or_else-none (some x) = refl

mutual
  unfolding find_blocked_command leaves first_found

  scan-leaves :
      (py : TextMethods) (commands : List String) (p : Payload)
      → find_blocked_command py commands p ≡ first_found py commands (leaves p)
  scan-leaves py commands (str value) =
      sym (or_else-none py commands (find_in_text py commands value))
  scan-leaves py commands (dict fs) = scan-leaves_of_values py commands fs
  scan-leaves py commands (items xs) = scan-leaves_of_items py commands xs
  scan-leaves py commands other = refl

  scan-leaves_of_items :
      (py : TextMethods) (commands : List String) (xs : Items)
      → find_in_items py commands xs ≡ first_found py commands (leaves_of_items xs)
  scan-leaves_of_items py commands nil = refl
  scan-leaves_of_items py commands (cons x xs) =
      rw (scan-leaves py commands x, scan-leaves_of_items py commands xs)
        (sym (first_found-append py commands (leaves x) (leaves_of_items xs)))

  scan-leaves_of_values :
      (py : TextMethods) (commands : List String) (fs : Fields)
      → find_in_values py commands fs ≡ first_found py commands (leaves_of_values fs)
  scan-leaves_of_values py commands end = refl
  scan-leaves_of_values py commands (field k v fs) =
      rw (scan-leaves py commands v, scan-leaves_of_values py commands fs)
        (sym (first_found-append py commands (leaves v) (leaves_of_values fs)))

-- The recursive scan of a payload gives the first blocked command in its texts, flattened in order.
pub find_blocked_command-leaves :
    (py : TextMethods) (commands : List String) (p : Payload)
    → find_blocked_command py commands p ≡ first_found py commands (leaves p)
find_blocked_command-leaves py commands p = scan-leaves py commands p

abbrev pub IsNamed : String → Type 0
IsNamed command = str_eq command "" ≡ false

or_else-match : (a b : Option String) → is_match a ≡ true → is_match (or_else a b) ≡ true
unfolding is_match
or_else-match none b h = ground arith
or_else-match (some found) b h = h

module _ (py : TextMethods) where
  found_matches :
      (commands : List String) (value : String)
      → All IsNamed commands
      → is_match (find_in_text py commands value) ≡ is_blocked_command py commands value
  unfolding find_in_text is_blocked_command is_match
  found_matches [] value h = refl
  found_matches (blocked ∷ rest) value h = ground (arith, found_matches rest value h.1)

  none_or_match :
      (commands : List String) (value : String)
      → All IsNamed commands
      → (find_in_text py commands value ≡ none) ⊎ (is_match (find_in_text py commands value) ≡ true)
  unfolding find_in_text is_match
  none_or_match [] value h = inl refl
  none_or_match (blocked ∷ rest) value h = ground (arith, none_or_match rest value h.1)

  pub leaf_matches :
      (commands : List String) (value : String) (xs : List String)
      → All IsNamed commands
      → IsIn value xs
      → is_blocked_command py commands value ≡ true
      → is_match (first_found py commands xs) ≡ true
  unfolding first_found is_match
  leaf_matches commands value [] named i bad = elim i [ ]
  leaf_matches commands value (x ∷ xs) named (inl e) bad =
      let m : is_match (find_in_text py commands x) ≡ true =
        rw (sym e) (found_matches commands value named ∙ bad) in
      or_else-match (find_in_text py commands x) (first_found py commands xs) m
  leaf_matches commands value (x ∷ xs) named (inr i) bad =
      let rest = leaf_matches commands value xs named i bad in
      elim (none_or_match commands x named) [
        | inl e ↦ rw e rest
        | inr m ↦ or_else-match (find_in_text py commands x) (first_found py commands xs) m
      ]
