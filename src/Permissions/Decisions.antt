-- ===== src/Permissions/Decisions.antt =====
-- The decisions of python/tom/security/permissions.py.
use tom.Prelude.{String, Bool, true, false}
use tom.Permissions.Levels.{PermissionLevel}

-- The messages, with the values that they show.
pub data Reason : Type 0 where
  empty_name : Reason
  unexpected_tool : Reason
  blocked_substring : String → Reason
  has_secrets : Reason
  prohibited : String → Reason
  needs_confirmation : String → Reason
  auto_confirmed : String → Reason
  is_safe : String → Reason

pub record PermissionDecision : Type 0 where
  pub allowed : Bool
  pub requires_confirmation : Bool
  pub reason : Reason
  pub permission_level : PermissionLevel

unfoldable pub allow : PermissionLevel → Reason → PermissionDecision
allow level reason = record {
  allowed = true;
  requires_confirmation = false;
  reason = reason;
  permission_level = level;
}

unfoldable pub ask_user : Reason → PermissionLevel → PermissionDecision
ask_user reason level = record {
  allowed = true;
  requires_confirmation = true;
  reason = reason;
  permission_level = level;
}

unfoldable pub deny : Reason → PermissionLevel → PermissionDecision
deny reason level = record {
  allowed = false;
  requires_confirmation = false;
  reason = reason;
  permission_level = level;
}
