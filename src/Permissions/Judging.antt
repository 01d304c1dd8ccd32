-- ===== src/Permissions/Judging.antt =====
-- What every decision of `PermissionEngine.evaluate` (python/tom/security/permissions.py) has in
-- common, and what a blocked command does to it.
use tom.Prelude.{
  IsIn, String, ◌≡◌, refl, sym, subst, ◌∙◌, ap, ◌⊎◌, inl, inr, Bool, true, false, some, not, ◌&&◌,
  arith, All, Bool-cases, Option-cases,
}
use tom.Dict.{get}
use tom.Permissions.Levels.{TextMethods, PermissionLevel, is_block, is_ask_user}
use tom.Permissions.Decisions.{PermissionDecision}
use tom.Permissions.Payloads.{
  Payload, Fields, end, field, is_blocked_command, find_blocked_command, find_in_values,
}
use tom.Permissions.Scanning.{
  IsNamed, leaves, leaves_of_values, leaf_matches, find_blocked_command-leaves,
}
use tom.Permissions.Engine.{
  PermissionEngine, Tool, Params, dict, blocked_match, is_match, is_given, resolve, Base, resolved,
  refused, invalid_level, judge, evaluate, decide, decide_escalated, escalate, conclude,
}

-- A decision is the only value of its `some`.
pub some-inj {ℓ} : {A : Type ℓ} {a b : A} → some a ≡ some b → a ≡ b
some-inj h = ground arith

-- The three fields of a decision fit each other and the configuration.
unfoldable pub IsCoherent : PermissionEngine → PermissionDecision → Type 0
IsCoherent e d =
    (d.allowed ≡ not (is_block d.permission_level))
    × (d.requires_confirmation ≡ (is_ask_user d.permission_level && e.require_confirmation_for_ask))

decide-IsCoherent :
    (e : PermissionEngine) (n : String) (l : PermissionLevel) → IsCoherent e (decide e n l)
unfolding IsCoherent decide
decide-IsCoherent e n l = ground arith

module _ (py : TextMethods) (scan : String → Bool) (e : PermissionEngine) where
  resolve-refused :
      (tool : Tool) (given : String) (d : PermissionDecision)
      → resolve py tool given ≡ refused d
      → IsCoherent e d × (d.allowed ≡ false)
  unfolding resolve IsCoherent
  resolve-refused tool given d h = ground arith

  escalated-IsCoherent :
      (n : String) (base : PermissionLevel) (params : Params)
      → IsCoherent e (decide_escalated py scan e n base params)
  unfolding decide_escalated IsCoherent
  escalated-IsCoherent n base params =
      let h = decide-IsCoherent e n (escalate py n params base) in ground arith

  judge-IsCoherent :
      (n : String) (base : PermissionLevel) (params : Params)
      → IsCoherent e (judge py scan e n base params)
  unfolding judge IsCoherent
  judge-IsCoherent n base params =
      elim (Bool-cases (is_given params && is_match (blocked_match py e.blocked_commands params))) [
        | inl b ↦ rw b (refl, refl)
        | inr b ↦ rw b elim (Option-cases (get e.overrides n)) [
          | inl o ↦ rw o (escalated-IsCoherent n base params)
          | inr (l, o) ↦ rw o (decide-IsCoherent e n l)
        ]
      ]

  conclude-cases :
      (params : Params) (b : Base) (d : PermissionDecision)
      → conclude py scan e params b ≡ some d
      → (b ≡ refused d)
        ⊎ ((n : String) × (base : PermissionLevel) × (judge py scan e n base params ≡ d))
  unfolding conclude
  conclude-cases params (resolved n base) d h = inr (n, base, some-inj h)
  conclude-cases params (refused d') d h = inl (ap refused (some-inj h))
  conclude-cases params invalid_level d h = ground arith

  pub evaluate-cases :
      (tool : Tool) (params : Params) (given : String) (d : PermissionDecision)
      → evaluate py scan e tool params given ≡ some d
      → (IsCoherent e d × (d.allowed ≡ false))
        ⊎ ((n : String) × (base : PermissionLevel) × (judge py scan e n base params ≡ d))
  unfolding evaluate
  evaluate-cases tool params given d h = elim (conclude-cases params (resolve py tool given) d h) [
    | inl r ↦ inl (resolve-refused tool given d r)
    | inr j ↦ inr j
  ]

  -- Every decision allows the call unless its level is BLOCK, and asks for confirmation exactly if
  -- its level is ASK_USER and the configuration wants the confirmation.
  pub evaluate-IsCoherent :
      (tool : Tool) (params : Params) (given : String) (d : PermissionDecision)
      → evaluate py scan e tool params given ≡ some d
      → (d.allowed ≡ not (is_block d.permission_level))
        × (d.requires_confirmation
            ≡ (is_ask_user d.permission_level && e.require_confirmation_for_ask))
  unfolding IsCoherent
  evaluate-IsCoherent tool params given d h = elim (evaluate-cases tool params given d h) [
    | inl r ↦ r.0
    | inr (n, base, j) ↦ subst (IsCoherent e) j (judge-IsCoherent n base params)
  ]

  judge-blocked :
      (n : String) (base : PermissionLevel) (fs : Fields)
      → is_match (find_in_values py e.blocked_commands fs) ≡ true
      → (judge py scan e n base (dict fs)).allowed ≡ false
  unfolding judge find_blocked_command is_match
  judge-blocked n base end h = ground arith
  judge-blocked n base (field k v fs) h = rw h refl

  scan_matches :
      (fs : Fields) (value : String)
      → All IsNamed e.blocked_commands
      → IsIn value (leaves_of_values fs)
      → is_blocked_command py e.blocked_commands value ≡ true
      → is_match (find_in_values py e.blocked_commands fs) ≡ true
  unfolding find_blocked_command leaves
  scan_matches fs value named i bad =
      rw (find_blocked_command-leaves py e.blocked_commands (Payload.dict fs))
        (leaf_matches py e.blocked_commands value (leaves_of_values fs) named i bad)

  -- Where a text in the arguments contains a blocked command, and no blocked command is the empty
  -- text, a decision is a denial, whatever the tool, its level and the overrides are.
  pub blocked_leaf_denied :
      (tool : Tool) (fs : Fields) (given : String) (d : PermissionDecision) (value : String)
      → All IsNamed e.blocked_commands
      → IsIn value (leaves_of_values fs)
      → is_blocked_command py e.blocked_commands value ≡ true
      → evaluate py scan e tool (dict fs) given ≡ some d
      → d.allowed ≡ false
  blocked_leaf_denied tool fs given d value named i bad h =
      elim (evaluate-cases tool (dict fs) given d h) [
        | inl r ↦ r.1
        | inr (n, base, j) ↦
            ap (λ d. d.allowed) (sym j)
            ∙ judge-blocked n base fs (scan_matches fs value named i bad)
      ]
