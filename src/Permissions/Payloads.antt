-- ===== src/Permissions/Payloads.antt =====
-- The arguments of a tool, and the scan of them for blocked commands
-- (python/tom/security/permissions.py).
use tom.Prelude.{
  ℕ, String, Bool, true, false, Option, none, some, List, [], ◌∷◌, str_eq, if◌then◌else◌,
}
use text.Mathlib.Text.{find?}
use tom.Permissions.Levels.{TextMethods}

-- A JSON-like value. `items` is a list, a tuple or a set in the order of its iteration, and `other`
-- is any value that is neither a text nor a container.
mutual
  pub data Payload : Type 0 where
    str : String → Payload
    dict : Fields → Payload
    items : Items → Payload
    other : Payload

  pub data Items : Type 0 where
    nil : Items
    cons : Payload → Items → Items

  pub data Fields : Type 0 where
    end : Fields
    field : String → Payload → Fields → Fields

-- params.get(name)
unfoldable pub lookup : String → Fields → Option Payload
lookup k end = none
lookup k (field j v fs) = if str_eq j k then some v else lookup k fs

is_found : Option ℕ → Bool
is_found none = false
is_found (some i) = true

-- blocked.lower() in text.lower()
unfoldable pub contains : TextMethods → String → String → Bool
unfolding is_found
contains py value blocked = is_found (find? (py.lower value) (py.lower blocked))

-- `blocked_commands` is a value of the configuration.
unfoldable pub is_blocked_command : TextMethods → List String → String → Bool
is_blocked_command py [] value = false
is_blocked_command py (blocked ∷ rest) value =
    if contains py value blocked then true else is_blocked_command py rest value

-- The case of a text in `find_blocked_command`.
unfoldable pub find_in_text : TextMethods → List String → String → Option String
find_in_text py [] value = none
find_in_text py (blocked ∷ rest) value =
    if contains py value blocked then some blocked else find_in_text py rest value

-- What is found first, or what is found in the rest.
abbrev pub or_else : Option String → Option String → Option String
or_else none rest = rest
or_else (some found) rest = some found

unfoldable mutual
  pub find_blocked_command : TextMethods → List String → Payload → Option String
  find_blocked_command py commands (str value) = find_in_text py commands value
  find_blocked_command py commands (dict fs) = find_in_values py commands fs
  find_blocked_command py commands (items xs) = find_in_items py commands xs
  find_blocked_command py commands other = none

  pub find_in_items : TextMethods → List String → Items → Option String
  find_in_items py commands nil = none
  find_in_items py commands (cons x xs) =
      or_else (find_blocked_command py commands x) (find_in_items py commands xs)

  pub find_in_values : TextMethods → List String → Fields → Option String
  find_in_values py commands end = none
  find_in_values py commands (field k v fs) =
      or_else (find_blocked_command py commands v) (find_in_values py commands fs)
