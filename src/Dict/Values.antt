-- ===== src/Dict/Values.antt =====
-- What holds of every value of a dictionary.
use tom.Prelude.{
  String, ◌≡◌, refl, inl, inr, true, false, none, some, [], ◌∷◌, arith, str_eq, subst, Bool-cases,
  All,
}
use tom.Dict.{Dict, get, has, put, remove}

-- Every value has the property.
abbrev pub AllValues {ℓ κ} : {V : Type ℓ} → (V → Type κ) → Dict V → Type κ
AllValues P d = All (λ e. P e.1) d

module _ {ℓ κ} {V : Type ℓ} (P : V → Type κ) where
  pub AllValues-put :
      (d : Dict V) (k : String) (v : V) → P v → AllValues P d → AllValues P (put d k v)
  unfolding put
  AllValues-put [] k v p h = (p, tt)
  AllValues-put ((j, w) ∷ d) k v p h = elim (Bool-cases (str_eq j k)) [
    | inl e ↦ rw e (p, h.1)
    | inr e ↦ rw e (h.0, AllValues-put d k v p h.1)
  ]

  pub AllValues-remove : (d : Dict V) (k : String) → AllValues P d → AllValues P (remove d k)
  unfolding remove
  AllValues-remove [] k h = tt
  AllValues-remove ((j, w) ∷ d) k h = elim (Bool-cases (str_eq j k)) [
    | inl e ↦ rw e (AllValues-remove d k h.1)
    | inr e ↦ rw e (h.0, AllValues-remove d k h.1)
  ]

  pub AllValues-get : (d : Dict V) (k : String) (v : V) → get d k ≡ some v → AllValues P d → P v
  unfolding get
  AllValues-get [] k v e h = absurd (ground arith)
  AllValues-get ((j, w) ∷ d) k v e h = elim (Bool-cases (str_eq j k)) [
    | inl p ↦ let same : w ≡ v = ground (arith, e) in subst P same h.0
    | inr p ↦ AllValues-get d k v (ground (arith, e)) h.1
  ]

module _ {ℓ} {V : Type ℓ} where
  pub has_of_none : (d : Dict V) (k : String) → get d k ≡ none → has d k ≡ false
  unfolding get has
  has_of_none [] k h = refl
  has_of_none ((j, w) ∷ d) k h = ground (arith, has_of_none d k)

  pub has_of_some : (d : Dict V) (k : String) (v : V) → get d k ≡ some v → has d k ≡ true
  unfolding get has
  has_of_some [] k v h = ground arith
  has_of_some ((j, w) ∷ d) k v h = ground (arith, has_of_some d k v)
