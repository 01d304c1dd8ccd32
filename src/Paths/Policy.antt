-- ===== src/Paths/Policy.antt =====
-- `PathPolicy` (python/tom/security/policies.py). Texts are lists of code points. What pathlib and the
-- file system of the platform answer is a parameter.
use tom.Prelude.{
  ℕ, Bool, true, false, not, ◌&&◌, ◌||◌, Option, none, some, List, [], ◌∷◌, ◌++◌, map, ◌==◌,
  if◌then◌else◌,
}
use tom.Streaming.Text.{Text, Unicode, is_empty, same_text, is_prefix, strip}
use tom.Streaming.Boundaries.{codes}

-- A path of pathlib: its drive, its root and the components after them.
pub record FilePath : Type 0 where
  pub drive : Text
  pub root : Text
  pub names : List Text

-- pathlib on the platform: `Path`, `/`, `is_absolute`, the comparison of two components, and the
-- file system: `os.path.realpath` of `resolve`, which can fail, and the tests of a path.
pub record Platform : Type 0 where
  pub unicode : Unicode
  pub upper : Text → Text
  pub parse : Text → FilePath
  pub join : FilePath → FilePath → FilePath
  pub is_absolute : FilePath → Bool
  pub same_part : Text → Text → Bool
  pub resolve : FilePath → Option FilePath
  pub realpath : FilePath → FilePath
  pub is_symlink : FilePath → Bool
  pub exists : FilePath → Bool
  pub is_file : FilePath → Bool
  pub is_dir : FilePath → Bool

pub data SecurityError : Type 0 where
  traversal device_namespace alternate_data_stream drive_relative unc unresolved : SecurityError
  reserved_name no_directories outside symlink_escape sensitive : SecurityError

pub data Validation : Type 0 where
  accepted : FilePath → Validation
  refused : SecurityError → Validation
  not_found not_a_file not_a_directory : Validation

pub record Checks : Type 0 where
  pub must_exist : Bool
  pub check_is_file : Bool
  pub check_is_dir : Bool

abbrev pub parts : FilePath → List Text
parts p = if is_empty (p.drive ++ p.root) then p.names else (p.drive ++ p.root) ∷ p.names

abbrev pub is_in : Text → List Text → Bool
is_in t [] = false
is_in t (s ∷ ss) = same_text s t || is_in t ss

abbrev pub any : (Text → Bool) → List Text → Bool
any f [] = false
any f (t ∷ ts) = f t || any f ts

-- w in text
unfoldable pub has_substring : Text → Text → Bool
has_substring w [] = is_empty w
has_substring w (c ∷ cs) = is_prefix w (c ∷ cs) || has_substring w cs

unfoldable pub ends_with : Text → Text → Bool
ends_with w [] = is_empty w
ends_with w (c ∷ cs) = same_text w (c ∷ cs) || ends_with w cs

abbrev backslash : ℕ → ℕ
backslash c = if c == 47 then 92 else c

abbrev pub colon : ℕ
colon = 58

-- What follows a leading drive letter.
unfoldable pub remainder : Unicode → Text → Text
remainder u (c ∷ d ∷ rest) = if d == colon && u.is_alpha c then rest else c ∷ d ∷ rest
remainder u cs = cs

abbrev pub has_colon : Text → Bool
has_colon [] = false
has_colon (c ∷ cs) = c == colon || has_colon cs

unfoldable pub has_device_prefix : Text → Bool
has_device_prefix lower =
    is_prefix (codes "\\\\.\\") (map backslash lower)
    || is_prefix (codes "\\\\?\\") (map backslash lower)

-- The error of the first test that holds.
abbrev pub first_error : List (Bool × SecurityError) → Option SecurityError
first_error [] = none
first_error ((b, e) ∷ tests) = if b then some e else first_error tests

-- The tests of `_check_raw_lexical`.
unfoldable pub lexical_tests : Platform → Text → List (Bool × SecurityError)
unfolding has_substring has_device_prefix remainder
lexical_tests fs path_str =
    let p = fs.parse path_str in
    (is_in (codes "..") (parts p), traversal)
    ∷ (has_substring (codes "../") path_str || has_substring (codes "..\\") path_str, traversal)
    ∷ (has_device_prefix (fs.unicode.lower path_str), device_namespace)
    ∷ (has_colon (remainder fs.unicode path_str), alternate_data_stream)
    ∷ (not (is_empty p.drive) && is_empty p.root, drive_relative)
    ∷ (is_prefix (codes "\\\\") p.drive || is_prefix (codes "//") path_str, unc)
    ∷ []

unfoldable pub check_raw_lexical : Platform → Text → Option SecurityError
unfolding lexical_tests
check_raw_lexical fs path_str = first_error (lexical_tests fs path_str)

abbrev pub candidate : Platform → List FilePath → Text → FilePath
candidate fs [] raw = fs.parse raw
candidate fs (base ∷ bases) raw =
    if not (fs.is_absolute (fs.parse raw)) then fs.join base (fs.parse raw) else fs.parse raw

abbrev windows_reserved_names : List Text
windows_reserved_names =
    codes "CON"
    ∷ codes "PRN"
    ∷ codes "AUX"
    ∷ codes "NUL"
    ∷ codes "COM1"
    ∷ codes "COM2"
    ∷ codes "COM3"
    ∷ codes "COM4"
    ∷ codes "COM5"
    ∷ codes "COM6"
    ∷ codes "COM7"
    ∷ codes "COM8"
    ∷ codes "COM9"
    ∷ codes "LPT1"
    ∷ codes "LPT2"
    ∷ codes "LPT3"
    ∷ codes "LPT4"
    ∷ codes "LPT5"
    ∷ codes "LPT6"
    ∷ codes "LPT7"
    ∷ codes "LPT8"
    ∷ codes "LPT9"
    ∷ []

-- part.split(".")[0]
unfoldable pub stem : Text → Text
stem [] = []
stem (c ∷ cs) = let rest = stem cs in if c == 46 then [] else c ∷ rest

unfoldable pub is_reserved : Platform → Text → Bool
unfolding stem strip
is_reserved fs part =
    is_in (strip fs.unicode (fs.upper (stem part))) windows_reserved_names
    || is_in (strip fs.unicode (fs.upper part)) windows_reserved_names

-- `relative_to`, on the components.
unfoldable pub begins_with : Platform → List Text → List Text → Bool
begins_with fs [] ps = true
begins_with fs (b ∷ bs) [] = false
begins_with fs (b ∷ bs) (p ∷ ps) = fs.same_part b p && begins_with fs bs ps

unfoldable pub is_contained : Platform → List FilePath → FilePath → Bool
unfolding begins_with
is_contained fs [] p = false
is_contained fs (base ∷ bases) p = begins_with fs (parts base) (parts p) || is_contained fs bases p

-- The components of the path and of each of its parents, the longest first.
abbrev pub ancestries : List Text → List (List Text)
ancestries [] = [] ∷ []
ancestries (n ∷ ns) = map (λ ms. n ∷ ms) (ancestries ns) ++ [] ∷ []

unfoldable pub escapes : Platform → List FilePath → FilePath → List (List Text) → Bool
unfolding is_contained
escapes fs allowed p [] = false
escapes fs allowed p (ns ∷ rest) =
    let current = record p { names = ns } in
    (fs.is_symlink current && not (is_contained fs allowed (fs.realpath current)))
    || escapes fs allowed p rest

abbrev pub name : List Text → Text
name [] = []
name (n ∷ []) = n
name (n ∷ m ∷ ms) = name (m ∷ ms)

abbrev safe_names : List Text
safe_names =
    codes ".gitignore"
    ∷ codes ".gitattributes"
    ∷ codes "pyproject.toml"
    ∷ codes "setup.py"
    ∷ codes "setup.cfg"
    ∷ codes "requirements.txt"
    ∷ codes "requirements-dev.txt"
    ∷ codes "ruff.toml"
    ∷ codes "mypy.ini"
    ∷ codes ".flake8"
    ∷ codes "tools.yaml"
    ∷ codes "config.yaml"
    ∷ []

abbrev sensitive_exact_names : List Text
sensitive_exact_names =
    codes ".env"
    ∷ codes ".env.local"
    ∷ codes ".env.production"
    ∷ codes ".env.test"
    ∷ codes ".env.staging"
    ∷ codes "credentials"
    ∷ codes ".credentials"
    ∷ codes "known_hosts"
    ∷ []

-- `$` stands also before a newline that ends the text.
abbrev ends_line : Text → Text → Bool
ends_line w cs = ends_with w cs || ends_with (w ++ 10 ∷ []) cs

unfoldable pub matches_pattern : Text → Bool
unfolding has_substring ends_with
matches_pattern cs =
    is_prefix (codes "id_rsa") cs
    || is_prefix (codes "id_ed25519") cs
    || is_prefix (codes "id_ecdsa") cs
    || is_prefix (codes "id_dsa") cs
    || is_prefix (codes "id_xmss") cs
    || ends_line (codes ".pem") cs
    || ends_line (codes ".key") cs
    || has_substring (codes "credentials") cs

-- `_check_sensitive`, of the name in lower case.
unfoldable pub is_sensitive : Text → Bool
unfolding matches_pattern
is_sensitive lower =
    not (is_in lower safe_names) && (is_in lower sensitive_exact_names || matches_pattern lower)

-- The tests of the resolved path.
unfoldable pub resolved_tests : Platform → List FilePath → FilePath → List (Bool × SecurityError)
unfolding is_reserved is_contained escapes is_sensitive
resolved_tests fs allowed p =
    (any (is_reserved fs) (parts p), reserved_name)
    ∷ (is_empty allowed, no_directories)
    ∷ (not (is_contained fs allowed p), outside)
    ∷ (escapes fs allowed p (ancestries p.names), symlink_escape)
    ∷ (is_sensitive (fs.unicode.lower (name p.names)), sensitive)
    ∷ []

unfoldable pub check_resolved : Platform → List FilePath → FilePath → Option SecurityError
unfolding resolved_tests
check_resolved fs allowed p = first_error (resolved_tests fs allowed p)

-- Existence and type.
unfoldable pub check_kind : Platform → Checks → FilePath → Validation
check_kind fs checks p =
    if checks.must_exist && not (fs.exists p)
    then not_found
    else if fs.exists p && checks.check_is_file && not (fs.is_file p)
    then not_a_file
    else if fs.exists p && checks.check_is_dir && not (fs.is_dir p)
    then not_a_directory
    else accepted p

abbrev pub unless_refused : Option SecurityError → Validation → Validation
unless_refused none v = v
unless_refused (some e) v = refused e

unfoldable pub validate_resolved : Platform → List FilePath → Checks → Option FilePath → Validation
unfolding check_resolved check_kind
validate_resolved fs allowed checks none = refused unresolved
validate_resolved fs allowed checks (some p) =
    unless_refused (check_resolved fs allowed p) (check_kind fs checks p)

unfoldable pub validate : Platform → List FilePath → Checks → Text → Validation
unfolding check_raw_lexical validate_resolved
validate fs allowed checks raw =
    unless_refused (check_raw_lexical fs raw)
      (validate_resolved fs allowed checks (fs.resolve (candidate fs allowed raw)))
