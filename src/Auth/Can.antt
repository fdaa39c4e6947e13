-- ===== src/Auth/Can.antt =====
-- packages/auth/src/can.ts and the decision part of authorize.ts.
pub mod Sound
use hootifactory.Prelude.{
  Bool, true, false, not, ◌&&◌, ◌||◌, List, [], ◌∷◌, ◌++◌, Option, none, some, ◌==◌, if◌then◌else◌,
  any, contains, or_else, Text, codes, text_eq,
}
use hootifactory.Auth.Permission.{
  PermissionKey, Action, ResourceType, repository, pkg, artifact, key_text, repository_read,
  package_read, artifact_read, key_eq,
}
use hootifactory.Auth.Permission.Required.{permission_for_action}
use hootifactory.Auth.Principal.{
  Principal, anonymous, user, api_token, registry_token, RegistryAccess, ResourceRef, Visibility,
  private, public, Decision, allow, deny, unauthenticated, insufficient_scope, cross_org,
  PermissionGrantRow, action_text, truthy, text_is,
}
use hootifactory.Auth.Grants.{permission_grants_allow}

pub record CanInput : Type 0 where
  pub principal : Principal
  pub action : Option Action
  pub permission : Option PermissionKey
  pub resource : ResourceRef
  pub grants : List PermissionGrantRow

-- `none` is the error that neither an action nor a permission is given.
unfoldable pub required_permission : CanInput → Option PermissionKey
required_permission input = elim input.permission [
  | some permission ↦ some permission
  | none ↦ elim input.action [
    | none ↦ none
    | some action ↦ some (permission_for_action action input.resource.type)
  ]
]

unfoldable pub deny_permission : PermissionKey → Decision
deny_permission permission =
    deny insufficient_scope (codes "permission '" ++ (key_text permission ++ codes "' is required"))

-- `ANONYMOUS_PUBLIC_READ_TYPES`
abbrev pub is_public_type : ResourceType → Bool
is_public_type repository = true
is_public_type pkg = true
is_public_type artifact = true
is_public_type _ = false

-- `PUBLIC_READ_PERMISSIONS`
abbrev pub public_read_permissions : List PermissionKey
public_read_permissions = repository_read ∷ package_read ∷ artifact_read ∷ []

abbrev pub is_public : Option Visibility → Bool
is_public none = false
is_public (some private) = false
is_public (some public) = true

unfoldable pub access_grants : Text → Action → RegistryAccess → Bool
access_grants name action access =
    (access.type == codes "repository" && access.name == name)
    && (contains access.actions (action_text action) || contains access.actions (codes "*"))

unfoldable pub can_anonymous : PermissionKey → ResourceRef → Decision
can_anonymous permission resource =
    if (contains public_read_permissions permission && is_public resource.visibility)
      && is_public_type resource.type
    then allow
    else deny unauthenticated (codes "authentication required")

unfoldable pub refuse_registry : Action → ResourceRef → Decision
refuse_registry action resource = deny insufficient_scope (
    codes "token does not grant '"
    ++ (action_text action ++ (codes "' on " ++ or_else resource.repository_name (codes "?"))))

unfoldable pub can_registry :
    List RegistryAccess → Option Action → PermissionKey → ResourceRef → Decision
can_registry access none permission resource = deny_permission permission
can_registry access (some action) permission resource = elim (truthy resource.repository_name) [
  | none ↦ refuse_registry action resource
  | some name ↦
      if any (access_grants name action) access then allow else refuse_registry action resource
]

unfoldable pub can_granted : List PermissionGrantRow → PermissionKey → ResourceRef → Decision
can_granted grants permission resource =
    if permission_grants_allow grants permission resource then allow else deny_permission permission

-- A token of another organisation than the resource's, where the resource names one.
unfoldable pub crosses_org : Text → ResourceRef → Bool
crosses_org org_id resource = elim (truthy resource.org_id) [
  | none ↦ false
  | some o ↦ not (org_id == o)
]

unfoldable pub decide :
    Principal → Option Action → List PermissionGrantRow → PermissionKey → ResourceRef → Decision
decide anonymous action grants permission resource = can_anonymous permission resource
decide (registry_token subject access) action grants permission resource =
    can_registry access action permission resource
decide (api_token id org_id owner owner_name) action grants permission resource =
    if crosses_org org_id resource
    then deny cross_org (codes "token not valid for this organization")
    else can_granted grants permission resource
decide (user id username) action grants permission resource = can_granted grants permission resource

unfoldable pub can : CanInput → Option Decision
can input = elim (required_permission input) [
  | none ↦ none
  | some permission ↦
      some (decide input.principal input.action input.grants permission input.resource)
]
