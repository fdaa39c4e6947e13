-- ===== src/Auth/Grants.antt =====
-- packages/auth/src/permission-grants.ts: what one grant row, and a list of them, allows.
pub mod Decides
use hootifactory.Prelude.{
  Bool, true, false, not, ◌&&◌, ◌||◌, List, [], ◌∷◌, Option, none, some, ◌==◌, if◌then◌else◌,
  is_some, any, Text, text_beq,
}
use hootifactory.Auth.Permission.{PermissionKey, system_admin, key_eq}
use hootifactory.Auth.Permission.Implication.{permission_implies}
use hootifactory.Auth.Scope.{pattern_matches}
use hootifactory.Auth.Principal.{
  PermissionGrantRow, ResourceRef, PolicyName, any_policy, policy_beq, TokenTarget, target_beq,
  truthy, text_is,
}

abbrev is_null {ℓ} : {A : Type ℓ} → Option A → Bool
is_null o = not (is_some o)

-- `grant.x && grant.x !== resource.x`
unfoldable pub id_blocks : Option Text → Option Text → Bool
id_blocks wanted actual = elim (truthy wanted) [ none ↦ false | some t ↦ not (text_is t actual) ]

-- `grant.p` is set, and the resource has no name or one that the pattern does not match.
unfoldable pub pattern_blocks : Option Text → Option Text → Bool
pattern_blocks wanted actual = elim (truthy wanted) [
  | none ↦ false
  | some pattern ↦ elim (truthy actual) [
    | none ↦ true
    | some name ↦ not (pattern_matches pattern name)
  ]
]

unfoldable pub policy_blocks : Option PolicyName → Option PolicyName → Bool
policy_blocks none actual = false
policy_blocks (some wanted) none = not (policy_beq wanted any_policy)
policy_blocks (some wanted) (some actual) =
    not (policy_beq wanted any_policy) && not (policy_beq wanted actual)

unfoldable pub target_blocks : Option TokenTarget → Option TokenTarget → Bool
target_blocks none actual = false
target_blocks (some wanted) none = true
target_blocks (some wanted) (some actual) = not (target_beq wanted actual)

unfoldable pub same_org : Option Text → Option Text → Bool
same_org wanted actual = elim (truthy wanted) [ none ↦ false | some t ↦ text_is t actual ]

-- The test of a `system.admin` grant.
unfoldable pub admin_scope : PermissionGrantRow → Bool
admin_scope grant =
    is_null grant.org_id
    && is_null grant.repository_id
    && is_null grant.repository_pattern
    && is_null grant.package_pattern
    && is_null grant.artifact_pattern
    && is_null grant.policy
    && is_null grant.token_target
    && is_null grant.target_token_id

-- The tests of any other grant.
unfoldable pub limited_scope : PermissionGrantRow → ResourceRef → Bool
limited_scope grant resource =
    if not (same_org grant.org_id resource.org_id)
    then false
    else if id_blocks grant.repository_id resource.repository_id
    then false
    else if pattern_blocks grant.repository_pattern resource.repository_name
    then false
    else if pattern_blocks grant.package_pattern resource.package_name
    then false
    else if pattern_blocks grant.artifact_pattern resource.artifact_ref
    then false
    else if policy_blocks grant.policy resource.policy
    then false
    else if target_blocks grant.token_target resource.token_target
    then false
    else if id_blocks grant.target_token_id resource.token_id
    then false
    else true

unfoldable pub scope_matches : PermissionGrantRow → ResourceRef → Bool
scope_matches grant resource =
    if grant.permission == system_admin then admin_scope grant else limited_scope grant resource

unfoldable pub permission_grant_allows : PermissionGrantRow → PermissionKey → ResourceRef → Bool
permission_grant_allows grant required resource =
    permission_implies grant.permission required && scope_matches grant resource

unfoldable pub permission_grants_allow :
    List PermissionGrantRow → PermissionKey → ResourceRef → Bool
permission_grants_allow grants required resource =
    any (λ grant. permission_grant_allows grant required resource) grants
