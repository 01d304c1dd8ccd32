-- ===== src/Ipc/Registers.antt =====
-- The registers of `NamedPipeIpcClient` (python/tom/ipc/client.py): the pending identifiers and the
-- futures.
use tom.Prelude.{
  String, ◌≡◌, refl, subst, ◌∙◌, ◌⊎◌, inl, inr, Bool, true, false, Option, none, some, List, [],
  ◌∷◌, arith, str_eq, eq_iff, eq_refl, if◌then◌else◌, All, Bool-cases,
}
use tom.Dict.{Dict, get, get-put}
use tom.Ipc.Client.{
  Future, waiting, cancelled, lost, resolved, is_in, discard, add, fail_future, fail_all,
}
use tom.Ipc.Runs.{IsServed}

pub is_in-discard :
    (k j : String) (ks : List String)
    → is_in j (discard k ks) ≡ (if str_eq k j then false else is_in j ks)
unfolding discard
is_in-discard k j [] = ground arith
is_in-discard k j (i ∷ ks) =
    ground (arith, is_in-discard k j ks, eq_iff i k, eq_iff i j, eq_iff k j)

pub is_in-add :
    (k j : String) (ks : List String)
    → is_in j (add k ks) ≡ (if str_eq k j then true else is_in j ks)
is_in-add k j ks = elim (Bool-cases (is_in k ks)) [
  | inl e ↦ elim (Bool-cases (str_eq k j)) [
    | inl b ↦ rw (e, b) (subst (λ i. is_in i ks ≡ true) ((eq_iff k j).0 b) e)
    | inr b ↦ rw (e, b) refl
  ]
  | inr e ↦ rw e refl
]

abbrev pub failed : Option Future → Option Future
failed (some waiting) = some lost
failed o = o

fail_future-same :
    (o : Option Future) (futures : Dict Future) (k : String)
    → get futures k ≡ o
    → get (fail_future o k futures) k ≡ failed o
unfolding fail_future
fail_future-same none futures k e = e
fail_future-same (some waiting) futures k e = rw (get-put futures k k lost, eq_refl k) refl
fail_future-same (some cancelled) futures k e = e
fail_future-same (some lost) futures k e = e
fail_future-same (some (resolved r)) futures k e = e

fail_future-other :
    (o : Option Future) (futures : Dict Future) (k j : String)
    → str_eq k j ≡ false
    → get (fail_future o k futures) j ≡ get futures j
unfolding fail_future
fail_future-other none futures k j n = refl
fail_future-other (some waiting) futures k j n = rw (get-put futures k j lost, n) refl
fail_future-other (some cancelled) futures k j n = refl
fail_future-other (some lost) futures k j n = refl
fail_future-other (some (resolved r)) futures k j n = refl

get-fail_future :
    (futures : Dict Future) (k j : String)
    → get (fail_future (get futures k) k futures) j
      ≡ (if str_eq k j then failed (get futures j) else get futures j)
get-fail_future futures k j = elim (Bool-cases (str_eq k j)) [
  | inl b ↦ rw b (
      subst (λ i. get (fail_future (get futures k) k futures) i ≡ failed (get futures i))
        ((eq_iff k j).0 b) (fail_future-same (get futures k) futures k refl))
  | inr b ↦ rw b (fail_future-other (get futures k) futures k j b)
]

failed_twice : (o : Option Future) → failed (failed o) ≡ failed o
failed_twice none = refl
failed_twice (some waiting) = refl
failed_twice (some cancelled) = refl
failed_twice (some lost) = refl
failed_twice (some (resolved r)) = refl

pub get-fail_all :
    (ks : List String) (futures : Dict Future) (j : String)
    → get (fail_all ks futures) j ≡ (if is_in j ks then failed (get futures j) else get futures j)
unfolding fail_all fail_future
get-fail_all [] futures j = refl
get-fail_all (k ∷ ks) futures j = elim (Bool-cases (str_eq k j)) [
  | inl b ↦
      get-fail_all ks (fail_future (get futures k) k futures) j
      ∙ rw (get-fail_future futures k j, b, failed_twice (get futures j)) (ground arith)
  | inr b ↦
      get-fail_all ks (fail_future (get futures k) k futures) j
      ∙ rw (get-fail_future futures k j, b) refl
]

pub live-IsServed :
    (live live' registered : Bool) (k : String) (o : Option Future)
    → (live ≡ false) ⊎ (live' ≡ true)
    → IsServed live registered k o
    → IsServed live' registered k o
live-IsServed live live' registered k none l h = h
live-IsServed live live' registered k (some waiting) l h = ground arith
live-IsServed live live' registered k (some cancelled) l h = h
live-IsServed live live' registered k (some lost) l h = h
live-IsServed live live' registered k (some (resolved r)) l h = h

-- After the pending futures have failed, none is left waiting.
pub failed-IsServed :
    (live live' registered registered' : Bool) (k : String) (o : Option Future)
    → IsServed live registered k o
    → IsServed live' registered' k (if registered then failed o else o)
failed-IsServed live live' registered registered' k none h = absurd h
failed-IsServed live live' true registered' k (some waiting) h = tt
failed-IsServed live live' false registered' k (some waiting) h = ground arith
failed-IsServed live live' registered registered' k (some cancelled) h = absurd h
failed-IsServed live live' registered registered' k (some lost) h = ground arith
failed-IsServed live live' true registered' k (some (resolved r)) h = h
failed-IsServed live live' false registered' k (some (resolved r)) h = h

pub str_neq_sym : (j k : String) → str_eq j k ≡ false → str_eq k j ≡ false
str_neq_sym j k e = ground (arith, eq_iff j k, eq_iff k j)

-- The other requests, when one has ended.
pub All-discard :
    {P Q : String → Type 0} (k : String)
    → ((j : String) → str_eq k j ≡ false → P j → Q j)
    → (ks : List String) → All P ks
    → All Q (discard k ks)
unfolding discard
All-discard k f [] h = tt
All-discard k f (j ∷ ks) h = elim (Bool-cases (str_eq j k)) [
  | inl e ↦ rw e (All-discard k f ks h.1)
  | inr e ↦ rw e (f j (str_neq_sym j k e) h.0, All-discard k f ks h.1)
]
