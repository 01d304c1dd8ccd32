-- ===== src/Dict/Totals.antt =====
-- Sums over the values of a dictionary whose keys are distinct.
use tom.Prelude.{
  ℕ, ◌+◌, String, ◌≡◌, refl, sym, ◌∙◌, ap, inl, inr, false, none, some, [], ◌∷◌, arith, str_eq,
  eq_iff, Bool-cases,
}
use tom.Dict.{Dict, get, put, remove, get-put, get-remove, remove_absent}

str_eq_sym : (j k : String) → str_eq j k ≡ false → str_eq k j ≡ false
str_eq_sym j k h = ground (arith, eq_iff j k, eq_iff k j)

module _ {ℓ} {V : Type ℓ} where
  abbrev pub total : (V → ℕ) → Dict V → ℕ
  total f [] = 0
  total f ((k, v) ∷ d) = f v + total f d

  -- No key stands twice.
  abbrev pub IsUnique : Dict V → Type ℓ
  IsUnique [] = Unit
  IsUnique ((k, v) ∷ d) = (get d k ≡ none) × IsUnique d

  pub total-put :
      (f : V → ℕ) (d : Dict V) (k : String) (v : V)
      → get d k ≡ none
      → total f (put d k v) ≡ total f d + f v
  unfolding get put
  total-put f [] k v h = omega arith
  total-put f ((j, w) ∷ d) k v h = elim (Bool-cases (str_eq j k)) [
    | inl p ↦ absurd (ground arith)
    | inr p ↦ rw p (omega (arith, total-put f d k v (rw (p, get) at h)))
  ]

  get-put_ne :
      (d : Dict V) (k j : String) (v : V)
      → get d j ≡ none
      → str_eq k j ≡ false
      → get (put d k v) j ≡ none
  get-put_ne d k j v h p = rw (get-put d k j v) (rw p h)

  pub IsUnique-put :
      (d : Dict V) (k : String) (v : V) → get d k ≡ none → IsUnique d → IsUnique (put d k v)
  unfolding get put
  IsUnique-put [] k v h u = (refl, tt)
  IsUnique-put ((j, w) ∷ d) k v h u = elim (Bool-cases (str_eq j k)) [
    | inl p ↦ absurd (ground arith)
    | inr p ↦
        rw p (get-put_ne d k j v u.0 (str_eq_sym j k p), IsUnique-put d k v (rw (p, get) at h) u.1)
  ]

  pub IsUnique-remove : (d : Dict V) (k : String) → IsUnique d → IsUnique (remove d k)
  unfolding remove
  IsUnique-remove [] k u = tt
  IsUnique-remove ((j, w) ∷ d) k u = elim (Bool-cases (str_eq j k)) [
    | inl p ↦ rw p (IsUnique-remove d k u.1)
    | inr p ↦ rw p ((rw (get-remove d k j) (ground (arith, u.0))), IsUnique-remove d k u.1)
  ]

  pub total-remove :
      (f : V → ℕ) (d : Dict V) (k : String) (v : V)
      → IsUnique d
      → get d k ≡ some v
      → total f (remove d k) + f v ≡ total f d
  unfolding get remove
  total-remove f [] k v u h = absurd (cc)
  total-remove f ((j, w) ∷ d) k v u h = elim (Bool-cases (str_eq j k)) [
    | inl p ↦
        let absent : get d k ≡ none = ap (get d) (sym ((eq_iff j k).0 p)) ∙ u.0 in
        let same : w ≡ v = ground (arith, h) in
        rw p (omega (arith, ap (total f) (remove_absent d k absent), ap f same))
    | inr p ↦ rw p (omega (arith, total-remove f d k v u.1 (rw (p, get) at h)))
  ]
