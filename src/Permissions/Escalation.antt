-- ===== src/Permissions/Escalation.antt =====
-- Overrides and escalation in `PermissionEngine` (python/tom/security/permissions.py).
use tom.Prelude.{
  ℕ, ◌≤◌, String, ◌≡◌, refl, sym, subst, ap, ◌∙◌, inl, inr, Bool, false, none, some, [], ◌∷◌, ◌&&◌,
  arith, eq_iff, eq_refl, Bool-cases,
}
use tom.Dict.{Dict, get, put, remove, get-put}
use tom.Permissions.Levels.{TextMethods, PermissionLevel, safe, block, is_block, from_str}
use tom.Permissions.Decisions.{ask_user, PermissionDecision}
use tom.Permissions.Judging.{some-inj}
use tom.Permissions.Engine.{
  PermissionEngine, definition, Params, blocked_match, is_match, is_given, judge, evaluate, decide,
  decide_escalated, escalate, set_override, remove_override, get_override,
}

abbrev pub rank : PermissionLevel → ℕ
rank safe = 0
rank PermissionLevel.ask_user = 1
rank block = 2

decide-level :
    (e : PermissionEngine) (n : String) (l : PermissionLevel) → (decide e n l).permission_level ≡ l
unfolding decide
decide-level e n l = ground arith

remove-put :
    (d : Dict PermissionLevel) (k : String) (l : PermissionLevel)
    → get d k ≡ none
    → remove (put d k l) k ≡ d
unfolding get put remove
remove-put [] k l h = rw (eq_refl k) refl
remove-put ((j, v) ∷ d) k l h = ground (arith, eq_iff j k, eq_refl k, remove-put d k l)

rank_bound : (l : PermissionLevel) → rank l ≤ 2
rank_bound l = ground arith

and_false : (b : Bool) {c : Bool} → c ≡ false → b && c ≡ false
and_false b h = ground arith

override_found :
    (py : TextMethods) (n text : String) (l : PermissionLevel) (e : PermissionEngine)
    → from_str py text ≡ some l
    → set_override py n text e ≡ some (record e { overrides = put e.overrides n l })
unfolding set_override
override_found py n text l e f = rw (f, set_override) refl

module _ (py : TextMethods) (scan : String → Bool) (e : PermissionEngine) where
  escalate-stricter :
      (n : String) (params : Params) (base : PermissionLevel)
      → is_block base ≡ false
      → rank base ≤ rank (escalate py n params base)
  unfolding escalate
  escalate-stricter n params base h = ground arith

  escalated-stricter :
      (n : String) (params : Params) (base : PermissionLevel)
      → is_block base ≡ false
      → rank base ≤ rank (decide_escalated py scan e n base params).permission_level
  unfolding decide_escalated
  escalated-stricter n params base h =
      let l = decide-level e n (escalate py n params base) in
      let s = escalate-stricter n params base h in ground arith

  judge-override :
      (n : String) (l base : PermissionLevel) (params : Params)
      → get e.overrides n ≡ some l
      → is_match (blocked_match py e.blocked_commands params) ≡ false
      → judge py scan e n base params ≡ decide e n l
  unfolding judge
  judge-override n l base params o b = rw (and_false (is_given params) b, o) refl

  judge-stricter :
      (n : String) (base : PermissionLevel) (params : Params)
      → get e.overrides n ≡ none
      → is_block base ≡ false
      → rank base ≤ rank (judge py scan e n base params).permission_level
  unfolding judge
  judge-stricter n base params o h =
      elim (Bool-cases (is_given params && is_match (blocked_match py e.blocked_commands params))) [
        | inl q ↦ rw q (rank_bound base)
        | inr q ↦ rw (q, o) (escalated-stricter n params base h)
      ]

  -- Without an override, the decision on a registered tool that is not declared BLOCK is at least as
  -- strict as its declared level, in the order SAFE, ASK_USER, BLOCK.
  pub never_weaker :
      (n : String) (base : PermissionLevel) (params : Params) (given : String)
      (d : PermissionDecision)
      → get_override n e ≡ none
      → is_block base ≡ false
      → evaluate py scan e (definition n base) params given ≡ some d
      → rank base ≤ rank d.permission_level
  unfolding evaluate get_override
  never_weaker n base params given d o h r =
      subst (λ c. rank base ≤ rank c.permission_level) (some-inj r)
        (judge-stricter n base params o h)

module _ (py : TextMethods) (n text : String) (l : PermissionLevel) (e e' : PermissionEngine)
    (s : set_override py n text e ≡ some e') (f : from_str py text ≡ some l) where
  same : record e { overrides = put e.overrides n l } ≡ e'
  same = some-inj (sym (override_found py n text l e f) ∙ s)

  is_set : get (put e.overrides n l) n ≡ some l
  is_set = rw (get-put e.overrides n n l, eq_refl n) refl

  -- After a level is set for a tool, each decision on the registered tool is made for that level,
  -- whatever level it is declared with, if the scan finds no blocked command.
  pub override_decides :
      (scan : String → Bool) (base : PermissionLevel) (params : Params) (given : String)
      → is_match (blocked_match py e.blocked_commands params) ≡ false
      → evaluate py scan e' (definition n base) params given ≡ some (decide e' n l)
  unfolding evaluate
  override_decides scan base params given b =
      subst (λ c. evaluate py scan c (definition n base) params given ≡ some (decide c n l)) same
        (ap some (
          judge-override py scan (record e { overrides = put e.overrides n l }) n l base params
            is_set b))

  -- After a level is set for a tool that had no override, taking the override away gives back the
  -- engine.
  pub remove_override-set_override : get_override n e ≡ none → remove_override n e' ≡ e
  unfolding get_override remove_override
  remove_override-set_override o =
      subst (λ c. remove_override n c ≡ e) same
        (ap (λ d. record e { overrides = d }) (remove-put e.overrides n l o))
