-- ===== src/Ipc/Frames.antt =====
-- Lines of bytes: `bytes.rstrip(b"\r\n")` and the `readline` of an asyncio stream, as
-- python/tom/ipc/transport.py uses them.
use tom.Prelude.{
  ℕ, ◌≡◌, refl, ap, ◌∙◌, Bool, false, ◌||◌, Option, none, some, List, [], ◌∷◌, ◌++◌, ◌==◌, arith,
  if◌then◌else◌, All,
}

abbrev pub Bytes : Type 0
Bytes = List ℕ

abbrev pub newline : ℕ
newline = 10

unfoldable pub is_eol : ℕ → Bool
is_eol c = c == newline || c == 13

-- A byte in front of a text that is stripped already.
unfoldable pub strip_cons : ℕ → Bytes → Bytes
unfolding is_eol
strip_cons c [] = if is_eol c then [] else c ∷ []
strip_cons c (d ∷ ds) = c ∷ d ∷ ds

unfoldable pub rstrip : Bytes → Bytes
unfolding strip_cons
rstrip [] = []
rstrip (c ∷ cs) = strip_cons c (rstrip cs)

abbrev cons_line : ℕ → Option (Bytes × Bytes) → Option (Bytes × Bytes)
cons_line c none = none
cons_line c (some (line, rest)) = some (c ∷ line, rest)

-- The bytes before the first newline and those after it.
unfoldable pub split_line : Bytes → Option (Bytes × Bytes)
split_line [] = none
split_line (c ∷ cs) =
    let rest = cons_line c (split_line cs) in if c == newline then some ([], cs) else rest

abbrev pub HasNoNewline : Bytes → Type 0
HasNoNewline cs = All (λ c. (c == newline) ≡ false) cs

pub split_line-append :
    (cs ds : Bytes) → HasNoNewline cs → split_line (cs ++ newline ∷ ds) ≡ some (cs, ds)
unfolding split_line
split_line-append [] ds h = refl
split_line-append (c ∷ cs) ds h = rw (h.0, split_line-append cs ds h.1) refl

rstrip-eol : (cs : Bytes) → rstrip (cs ++ newline ∷ []) ≡ rstrip cs
unfolding rstrip strip_cons is_eol
rstrip-eol [] = refl
rstrip-eol (c ∷ cs) = ap (strip_cons c) (rstrip-eol cs)

rstrip-strip_cons :
    (c : ℕ) (cs : Bytes) → rstrip cs ≡ cs → rstrip (strip_cons c cs) ≡ strip_cons c cs
unfolding rstrip strip_cons is_eol
rstrip-strip_cons c [] h = ground arith
rstrip-strip_cons c (d ∷ ds) h = ap (strip_cons c) h

rstrip-rstrip : (cs : Bytes) → rstrip (rstrip cs) ≡ rstrip cs
unfolding rstrip
rstrip-rstrip [] = refl
rstrip-rstrip (c ∷ cs) = rstrip-strip_cons c (rstrip cs) (rstrip-rstrip cs)

-- A stripped line is read back from its bytes and a newline.
pub rstrip-line : (cs : Bytes) → rstrip (rstrip cs ++ newline ∷ []) ≡ rstrip cs
rstrip-line cs = rstrip-eol (rstrip cs) ∙ rstrip-rstrip cs
