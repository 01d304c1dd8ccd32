-- ===== src/Permissions/Examples.antt =====
-- The permission engine at concrete calls, and the theorems about it there.
use tom.Prelude.{◌≤◌, ◌≡◌, refl, inl, inr, String, Bool, true, false, some, [], ◌∷◌}
use tom.Dict.{has, get}
use tom.Permissions.Levels.{TextMethods, PermissionLevel, safe, block}
use tom.Permissions.Decisions.{
  PermissionDecision, deny, ask_user, needs_confirmation, blocked_substring,
}
use tom.Permissions.Payloads.{
  find_in_values, lookup, Payload, str, field, end, find_in_text, items, nil, cons,
  find_blocked_command, is_blocked_command, contains,
}
use tom.Permissions.Scanning.{find_blocked_command-leaves, leaves, first_found}
use tom.Permissions.Judging.{blocked_leaf_denied}
use tom.Permissions.Escalation.{never_weaker, rank}
use tom.Permissions.Engine.{get_override, PermissionEngine, definition, dict, evaluate}

-- Texts as they are; the runs below need no other case.
abbrev as_is : TextMethods
as_is = record { lower = λ s. s; upper = λ s. s; strip = λ s. s }

abbrev clean : String → Bool
clean s = false

abbrev engine : PermissionEngine
engine = record {
  require_confirmation_for_ask = true;
  blocked_commands = "format" ∷ "shutdown" ∷ [];
  overrides = [];
}

abbrev nested : Payload
nested =
    Payload.dict (field "a" (str "list") (field "b" (items (cons (str "shutdown now") nil)) end))

found_deep : find_blocked_command as_is engine.blocked_commands nested ≡ some "shutdown"
unfolding find_blocked_command contains find_in_text
found_deep = refl

find_blocked_command-leaves_example :
    find_blocked_command as_is engine.blocked_commands nested
    ≡ first_found as_is engine.blocked_commands (leaves nested)
find_blocked_command-leaves_example =
    find_blocked_command-leaves as_is engine.blocked_commands nested

abbrev overridden : PermissionEngine
overridden = record engine { overrides = ("system.cpu_info", safe) ∷ [] }

blocked_leaf_denied_example : (deny (blocked_substring "shutdown") block).allowed ≡ false
unfolding evaluate is_blocked_command contains leaves find_blocked_command deny get find_in_text
blocked_leaf_denied_example =
    blocked_leaf_denied as_is clean overridden (definition "system.cpu_info" safe)
      (field "a" (str "list") (field "b" (items (cons (str "shutdown now") nil)) end)) "SAFE"
      (deny (blocked_substring "shutdown") block) "shutdown now" (refl, (refl, tt)) (inr (inl refl))
      refl refl

abbrev note : PermissionDecision
note = ask_user (needs_confirmation "personal.note") PermissionLevel.ask_user

never_weaker_example : rank safe ≤ rank note.permission_level
unfolding evaluate get get_override find_in_values find_in_text contains has lookup
never_weaker_example =
    never_weaker as_is clean engine "personal.note" safe (dict (field "action" (str "create") end))
      "SAFE" note refl refl refl

abbrev asked : PermissionDecision
asked = record {
  allowed = true;
  requires_confirmation = true;
  reason = needs_confirmation "personal.note";
  permission_level = PermissionLevel.ask_user;
}

abbrev closed : PermissionEngine
closed = record engine { overrides = ("web.fetch", block) ∷ [] }
