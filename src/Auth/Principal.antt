-- ===== src/Auth/Principal.antt =====
-- packages/types/src/index.ts: identities, resources and decisions; the grant rows of
-- packages/auth/src/permission-grants.ts. A nullable or absent field is an `Option`.
use hootifactory.Prelude.{
  ℕ, Bool, true, false, List, [], ◌∷◌, Option, none, some, Text, codes, nat_beq, text_beq,
}
use hootifactory.Auth.Permission.{PermissionKey, ResourceType, Action, read, write, delete, admin}

pub data Visibility : Type 0 where
  private public : Visibility

pub data PolicyName : Type 0 where
  scan quota retention any_policy : PolicyName

abbrev policy_index : PolicyName → ℕ
policy_index scan = 0
policy_index quota = 1
policy_index retention = 2
policy_index any_policy = 3

abbrev pub policy_beq : PolicyName → PolicyName → Bool
policy_beq p q = nat_beq (policy_index p) (policy_index q)

pub data TokenTarget : Type 0 where
  self org_target : TokenTarget

abbrev pub target_beq : TokenTarget → TokenTarget → Bool
target_beq self self = true
target_beq org_target org_target = true
target_beq _ _ = false

pub data DenialCode : Type 0 where
  unauthenticated cross_org not_member insufficient_scope forbidden : DenialCode

pub record RegistryAccess : Type 0 where
  pub type : Text
  pub name : Text
  pub actions : List Text

-- `tokenName`, `grants` and `isRobot` of a token take no part in a decision and are left out.
pub data Principal : Type 0 where
  anonymous : Principal
  user : Text → Text → Principal
  api_token : Text → Text → Option Text → Option Text → Principal
  registry_token : Text → List RegistryAccess → Principal

pub record ResourceRef : Type 0 where
  pub type : ResourceType
  pub org_id : Option Text
  pub repository_id : Option Text
  pub repository_name : Option Text
  pub package_name : Option Text
  pub artifact_ref : Option Text
  pub policy : Option PolicyName
  pub token_target : Option TokenTarget
  pub token_id : Option Text
  pub visibility : Option Visibility

pub data Decision : Type 0 where
  allow : Decision
  deny : DenialCode → Text → Decision

pub record PermissionGrantRow : Type 0 where
  pub permission : PermissionKey
  pub user_id : Option Text
  pub group_id : Option Text
  pub subject_token_id : Option Text
  pub org_id : Option Text
  pub repository_id : Option Text
  pub repository_pattern : Option Text
  pub package_pattern : Option Text
  pub artifact_pattern : Option Text
  pub policy : Option PolicyName
  pub token_target : Option TokenTarget
  pub target_token_id : Option Text

abbrev pub action_text : Action → Text
action_text read = codes "read"
action_text write = codes "write"
action_text delete = codes "delete"
action_text admin = codes "admin"

-- The value that a string of the code has where it is tested: absent and empty are falsy.
abbrev pub truthy : Option Text → Option Text
truthy none = none
truthy (some []) = none
truthy (some (c ∷ s)) = some (c ∷ s)

-- `value === field`, for a value that is present and a field that may be absent.
abbrev pub text_is : Text → Option Text → Bool
text_is t none = false
text_is t (some s) = text_beq t s
