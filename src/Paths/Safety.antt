-- ===== src/Paths/Safety.antt =====
-- What `PathPolicy.validate` (python/tom/security/policies.py) accepts.
use tom.Prelude.{
  ◌≡◌, refl, ap, subst, ◌⊎◌, inl, inr, Bool, true, false, Option, none, some, List, [], ◌∷◌, ◌++◌,
  arith, All, IsIn, Bool-cases,
}
use tom.Streaming.Text.{Text}
use tom.Streaming.Boundaries.{codes}
use tom.Paths.Policy.{
  lexical_tests, resolved_tests, FilePath, Platform, SecurityError, Validation, accepted, Checks,
  parts, is_in, any, remainder, has_colon, check_raw_lexical, candidate, is_reserved, begins_with,
  is_contained, ancestries, escapes, name, is_sensitive, check_resolved, check_kind, first_error,
  unless_refused, validate_resolved, validate,
}

-- The components are pairwise the same.
abbrev pub SameParts : Platform → List Text → List Text → Type 0
SameParts fs [] [] = Unit
SameParts fs (a ∷ as') (b ∷ bs) = (fs.same_part a b ≡ true) × SameParts fs as' bs
SameParts fs _ _ = ⊥

-- The components of an allowed directory come first in those of the path.
abbrev pub IsInside : Platform → List FilePath → FilePath → Type 0
IsInside fs allowed p =
    (base : FilePath) × (front : List Text) × (rest : List Text) × IsIn base allowed
    × (parts p ≡ front ++ rest)
    × SameParts fs (parts base) front

-- A symbolic link among the path and its parents leads into an allowed directory.
abbrev pub HasSafeLinks : Platform → List FilePath → FilePath → Type 0
HasSafeLinks fs allowed p =
    All
      (λ ns.
        (fs.is_symlink (record p { names = ns }) ≡ false)
        ⊎ IsInside fs allowed (fs.realpath (record p { names = ns })))
      (ancestries p.names)

-- The existence and the kind are those that were asked for.
abbrev pub HasKind : Platform → Checks → FilePath → Type 0
HasKind fs checks p =
    ((checks.must_exist ≡ false) ⊎ (fs.exists p ≡ true))
    × ((fs.exists p ≡ false)
        ⊎ (((checks.check_is_file ≡ false) ⊎ (fs.is_file p ≡ true))
            × ((checks.check_is_dir ≡ false) ⊎ (fs.is_dir p ≡ true))))

-- Without an error no test holds.
first_error-All :
    (tests : List (Bool × SecurityError)) → first_error tests ≡ none → All (λ t. t.0 ≡ false) tests
first_error-All [] h = tt
first_error-All ((true, e) ∷ tests) h = absurd (ground (arith, h))
first_error-All ((false, e) ∷ tests) h = (refl, first_error-All tests h)

begins_with-SameParts :
    (fs : Platform) (bs ps : List Text)
    → begins_with fs bs ps ≡ true
    → (front : List Text) × (rest : List Text) × (ps ≡ front ++ rest) × SameParts fs bs front
unfolding begins_with
begins_with-SameParts fs [] ps h = ([], ps, refl, tt)
begins_with-SameParts fs (b ∷ bs) [] h = absurd (ground (arith, h))
begins_with-SameParts fs (b ∷ bs) (p ∷ ps) h =
    let (front, rest, e, s) = begins_with-SameParts fs bs ps (ground (arith, h)) in
    (p ∷ front, rest, ap (λ xs. p ∷ xs) e, (ground (arith, h), s))

is_contained-IsInside :
    (fs : Platform) (allowed : List FilePath) (p : FilePath)
    → is_contained fs allowed p ≡ true
    → IsInside fs allowed p
unfolding is_contained
is_contained-IsInside fs [] p h = absurd (ground (arith, h))
is_contained-IsInside fs (base ∷ bases) p h =
    elim (Bool-cases (begins_with fs (parts base) (parts p))) [
      | inl e ↦
          let (front, rest, eq, s) = begins_with-SameParts fs (parts base) (parts p) e in
          (base, front, rest, inl refl, eq, s)
      | inr e ↦
          let (b, front, rest, i, eq, s) =
            is_contained-IsInside fs bases p (ground (arith, h, e)) in
          (b, front, rest, inr i, eq, s)
    ]

any-All : (f : Text → Bool) (ts : List Text) → any f ts ≡ false → All (λ t. f t ≡ false) ts
any-All f [] h = tt
any-All f (t ∷ ts) h = (ground (arith, h), any-All f ts (ground (arith, h)))

escapes-All :
    (fs : Platform) (allowed : List FilePath) (p : FilePath) (nss : List (List Text))
    → escapes fs allowed p nss ≡ false
    → All
        (λ ns.
          (fs.is_symlink (record p { names = ns }) ≡ false)
          ⊎ IsInside fs allowed (fs.realpath (record p { names = ns })))
        nss
unfolding escapes
escapes-All fs allowed p [] h = tt
escapes-All fs allowed p (ns ∷ nss) h =
    let q : FilePath = record p { names = ns } in
    (
      elim (Bool-cases (fs.is_symlink q)) [
        | inl e ↦ inr (is_contained-IsInside fs allowed (fs.realpath q) (ground (arith, h, e)))
        | inr e ↦ inl e
      ],
      escapes-All fs allowed p nss (ground (arith, h)),
    )

accepted_unless :
    (o : Option SecurityError) (v : Validation) (p : FilePath)
    → unless_refused o v ≡ accepted p
    → (o ≡ none) × (v ≡ accepted p)
accepted_unless none v p h = (refl, h)
accepted_unless (some e) v p h = absurd (ground (arith, h))

abbrev pub IsChecked : Platform → List FilePath → FilePath → Type 0
IsChecked fs allowed p =
    IsInside fs allowed p
    × All (λ part. is_reserved fs part ≡ false) (parts p)
    × HasSafeLinks fs allowed p
    × (is_sensitive (fs.unicode.lower (name p.names)) ≡ false)

check_resolved-IsChecked :
    (fs : Platform) (allowed : List FilePath) (p : FilePath)
    → check_resolved fs allowed p ≡ none
    → IsChecked fs allowed p
unfolding check_resolved resolved_tests
check_resolved-IsChecked fs allowed p h =
    let (a, (b, (c, (d, (e, f))))) = first_error-All (resolved_tests fs allowed p) h in
    (
      is_contained-IsInside fs allowed p (ground (arith, c)),
      any-All (is_reserved fs) (parts p) a,
      escapes-All fs allowed p (ancestries p.names) d,
      e,
    )

check_kind-HasKind :
    (fs : Platform) (checks : Checks) (p q : FilePath)
    → check_kind fs checks p ≡ accepted q
    → (p ≡ q) × HasKind fs checks p
unfolding check_kind
check_kind-HasKind fs checks p q h = ground (arith, h)

-- No component `..` and no colon but that of a drive.
abbrev pub IsPlain : Platform → Text → Type 0
IsPlain fs raw =
    (is_in (codes "..") (parts (fs.parse raw)) ≡ false)
    × (has_colon (remainder fs.unicode raw) ≡ false)

check_raw_lexical-IsPlain :
    (fs : Platform) (raw : Text) → check_raw_lexical fs raw ≡ none → IsPlain fs raw
unfolding check_raw_lexical lexical_tests
check_raw_lexical-IsPlain fs raw h =
    let (a, (b, (c, (d, e)))) = first_error-All (lexical_tests fs raw) h in (a, d)

resolved-accepted :
    (fs : Platform) (allowed : List FilePath) (checks : Checks) (o : Option FilePath) (q : FilePath)
    → validate_resolved fs allowed checks o ≡ accepted q
    → (o ≡ some q) × IsChecked fs allowed q × HasKind fs checks q
unfolding validate_resolved
resolved-accepted fs allowed checks none q h = absurd (ground (arith, h))
resolved-accepted fs allowed checks (some p) q h =
    let (c, k) = accepted_unless (check_resolved fs allowed p) (check_kind fs checks p) q h in
    let (e, kind) = check_kind-HasKind fs checks p q k in
    let checked = check_resolved-IsChecked fs allowed p c in
    (ap some e, subst (IsChecked fs allowed) e checked, subst (HasKind fs checks) e kind)

-- A path that `validate` accepts is what the path that was asked for, put into the first allowed
-- directory if it is relative, resolves to. The text has no component `..` and no colon but that of a
-- drive; the components of the path begin with those of an allowed directory, and none is a reserved
-- name; every symbolic link among it and its parents leads into an allowed directory; its name is
-- not sensitive; it exists if that was asked for, and if it exists it is of the kind that was asked
-- for.
pub accepted-IsSafe :
    (fs : Platform) (allowed : List FilePath) (checks : Checks) (raw : Text) (p : FilePath)
    → validate fs allowed checks raw ≡ accepted p
    → IsPlain fs raw
      × (fs.resolve (candidate fs allowed raw) ≡ some p)
      × IsChecked fs allowed p
      × HasKind fs checks p
unfolding validate
accepted-IsSafe fs allowed checks raw p h =
    let (l, v) = accepted_unless (check_raw_lexical fs raw) _ p h in
    let (e, c, k) =
      resolved-accepted fs allowed checks (fs.resolve (candidate fs allowed raw)) p v in
    (check_raw_lexical-IsPlain fs raw l, e, c, k)
