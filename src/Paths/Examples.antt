-- ===== src/Paths/Examples.antt =====
-- Concrete paths for `PathPolicy` (python/tom/security/policies.py) on a platform with slashes and
-- without links.
use tom.Prelude.{◌≡◌, refl, Bool, true, false, some, List, [], ◌∷◌, ◌++◌, ◌==◌, if◌then◌else◌}
use tom.Streaming.Text.{Text, Unicode, is_empty}
use tom.Streaming.Boundaries.{codes}
use tom.Paths.Policy.{
  FilePath, Platform, refused, traversal, outside, sensitive, reserved_name, Checks, validate,
  candidate,
}
use tom.Paths.Safety.{IsPlain, IsChecked, HasKind, accepted-IsSafe}

abbrev close_name : Text → List Text → List Text
close_name word rest = if is_empty word then rest else word ∷ rest

abbrev split_names : Text → Text → List Text
split_names word [] = close_name word []
split_names word (c ∷ cs) =
    let new = close_name word (split_names [] cs) in
    let more = split_names (word ++ c ∷ []) cs in if c == 47 then new else more

abbrev root_of : Text → Text
root_of [] = []
root_of (c ∷ cs) = if c == 47 then c ∷ [] else []

abbrev same : Text → Text → Bool
same [] [] = true
same (a ∷ xs) (b ∷ ys) = if a == b then same xs ys else false
same _ _ = false

abbrev ascii : Unicode
ascii = record {
  is_space = λ c. c == 32;
  is_alpha = λ c. false;
  is_digit = λ c. false;
  lower = λ t. t;
}

abbrev slashes : Platform
slashes = record {
  unicode = ascii;
  upper = λ t. t;
  parse = λ t. record { drive = []; root = root_of t; names = split_names [] t };
  join = λ p q. record p { names = p.names ++ q.names };
  is_absolute = λ p. if is_empty p.root then false else true;
  same_part = same;
  resolve = λ p. some p;
  realpath = λ p. p;
  is_symlink = λ p. false;
  exists = λ p. true;
  is_file = λ p. true;
  is_dir = λ p. false;
}

abbrev home : List FilePath
home = record { drive = []; root = codes "/"; names = codes "home" ∷ [] } ∷ []

abbrev a_file : Checks
a_file = record { must_exist = true; check_is_file = true; check_is_dir = false }

abbrev notes : FilePath
notes = record { drive = []; root = codes "/"; names = codes "home" ∷ codes "notes.txt" ∷ [] }

climbing : validate slashes home a_file (codes "../etc") ≡ refused traversal
unfolding validate
climbing = refl

elsewhere : validate slashes home a_file (codes "/homes/x") ≡ refused outside
unfolding validate
elsewhere = refl

device : validate slashes home a_file (codes "/home/NUL.txt") ≡ refused reserved_name
unfolding validate
device = refl

key_file : validate slashes home a_file (codes "x.pem") ≡ refused sensitive
unfolding validate
key_file = refl

accepted-IsSafe_example :
    IsPlain slashes (codes "notes.txt")
    × (some (candidate slashes home (codes "notes.txt")) ≡ some notes)
    × IsChecked slashes home notes
    × HasKind slashes a_file notes
unfolding validate
accepted-IsSafe_example = accepted-IsSafe slashes home a_file (codes "notes.txt") notes refl
