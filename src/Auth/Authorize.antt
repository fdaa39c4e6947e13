-- ===== src/Auth/Authorize.antt =====
-- packages/auth/src/authorize.ts and the queries of permission-grants.ts, over the rows of the
-- database.
pub mod Owner
pub mod Queries
pub mod Groups
use hootifactory.Prelude.{
  Bool, true, false, ◌&&◌, ◌||◌, List, [], ◌∷◌, ◌++◌, Option, none, some, keep, contains, map,
  or_else, ◌==◌, if◌then◌else◌, Text, codes, text_eq, text_beq,
}
use hootifactory.Auth.Permission.{PermissionKey, Action}
use hootifactory.Auth.Permission.Required.{permission_for_action}
use hootifactory.Auth.Principal.{
  Principal, anonymous, user, api_token, registry_token, ResourceRef, Decision, allow, deny,
  insufficient_scope, PermissionGrantRow, truthy, text_is,
}
use hootifactory.Auth.Can.{decide}

pub record GroupMembership : Type 0 where
  pub group_id : Text
  pub member_id : Text
  pub org_id : Text

pub record AuthDb : Type 0 where
  pub permission_grants : List PermissionGrantRow
  pub group_memberships : List GroupMembership

-- `or(eq(orgId, org), isNull(orgId))`
abbrev pub in_org_or_global : Text → Option Text → Bool
in_org_or_global org none = true
in_org_or_global org (some o) = text_beq org o

unfoldable pub direct_grants : AuthDb → Text → Option Text → List PermissionGrantRow
direct_grants db user_id org_id = elim (truthy org_id) [
  | none ↦ keep (λ g. text_is user_id g.user_id) db.permission_grants
  | some org ↦
      keep (λ g. text_is user_id g.user_id && in_org_or_global org g.org_id) db.permission_grants
]

unfoldable pub group_ids : AuthDb → Text → Text → List Text
group_ids db user_id org =
    map (λ m. m.group_id)
      (keep (λ m. text_beq m.member_id user_id && text_beq m.org_id org) db.group_memberships)

abbrev pub grant_of_group : List Text → Text → PermissionGrantRow → Bool
grant_of_group ids org g = elim g.group_id [
  | none ↦ false
  | some id ↦ contains ids id && text_is org g.org_id
]

unfoldable pub permission_grants_for_user : AuthDb → Text → Option Text → List PermissionGrantRow
permission_grants_for_user db user_id org_id = elim (truthy org_id) [
  | none ↦ direct_grants db user_id org_id
  | some org ↦ elim (group_ids db user_id org) [
    | [] ↦ direct_grants db user_id org_id
    | id ∷ ids ↦
        direct_grants db user_id org_id ++ keep (grant_of_group (id ∷ ids) org) db.permission_grants
  ]
]

unfoldable pub permission_grants_for_token : AuthDb → Text → List PermissionGrantRow
permission_grants_for_token db token_id =
    keep (λ g. text_is token_id g.subject_token_id) db.permission_grants

unfoldable pub grants_for_principal : AuthDb → Principal → ResourceRef → List PermissionGrantRow
grants_for_principal db (user id name) resource = permission_grants_for_user db id resource.org_id
grants_for_principal db (api_token id org owner owner_name) resource =
    permission_grants_for_token db id
grants_for_principal db anonymous resource = []
grants_for_principal db (registry_token subject access) resource = []

-- The decision on the token itself, and then on its owner.
unfoldable pub owner_decision :
    AuthDb → Text → Option Text → Option Action → PermissionKey → ResourceRef → Decision
owner_decision db owner owner_name action permission resource =
    decide (user owner (or_else owner_name (codes "token-owner"))) action
      (permission_grants_for_user db owner resource.org_id) permission resource

unfoldable pub check_owner :
    AuthDb → Principal → Option Action → PermissionKey → ResourceRef → Decision
check_owner db (api_token id org owner owner_name) action permission resource =
    elim (truthy owner) [
      | none ↦ allow
      | some o ↦ elim (owner_decision db o owner_name action permission resource) [
        | allow ↦ allow
        | deny _ _ ↦
            deny insufficient_scope (codes "token owner no longer has the required permission")
      ]
    ]
check_owner db principal action permission resource = allow

-- The common body of `authorize` and `authorizePermission`; both give a permission.
unfoldable pub authorize_with :
    AuthDb → Principal → Option Action → PermissionKey → ResourceRef → Decision
authorize_with db principal action permission resource =
    elim (decide principal action (grants_for_principal db principal resource) permission
      resource) [
        | deny code reason ↦ deny code reason
        | allow ↦ check_owner db principal action permission resource
      ]

unfoldable pub authorize_permission : AuthDb → Principal → PermissionKey → ResourceRef → Decision
authorize_permission db principal permission resource =
    authorize_with db principal none permission resource

unfoldable pub authorize : AuthDb → Principal → Action → ResourceRef → Decision
authorize db principal action resource =
    authorize_with db principal (some action) (permission_for_action action resource.type) resource
