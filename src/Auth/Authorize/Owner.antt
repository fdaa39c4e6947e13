-- ===== src/Auth/Authorize/Owner.antt =====
-- A token acts within its own grants, its organisation and what its owner may do.
use hootifactory.Prelude.{
  ◌≡◌, refl, ◌↔◌, ◌⊎◌, inl, inr, List, Option, some, arith, Option-cases, or_else, Text, codes, Any,
  text_eq,
}
use hootifactory.Auth.Permission.{PermissionKey, Action}
use hootifactory.Auth.Permission.Required.{permission_for_action}
use hootifactory.Auth.Principal.{
  Principal, user, api_token, ResourceRef, Decision, DenialCode, allow, deny, PermissionGrantRow,
  truthy,
}
use hootifactory.Auth.Grants.Decides.{Allows}
use hootifactory.Auth.Can.{decide}
use hootifactory.Auth.Can.Sound.{Permitted, user_grant, token_grant, decide_sound, decide_complete}
use hootifactory.Auth.Authorize.{
  AuthDb, permission_grants_for_user, permission_grants_for_token, grants_for_principal,
  owner_decision, check_owner, authorize_with, authorize,
}
use hootifactory.Auth.Authorize.Groups.{IsGroups}
use hootifactory.Auth.Authorize.Queries.{IsOwn, user_grants_iff, token_grants_iff}

pub Decision-cases : (d : Decision) → (d ≡ allow) ⊎ ((c : DenialCode) × (m : Text) × (d ≡ deny c m))
Decision-cases allow = inl refl
Decision-cases (deny c m) = inr (c, m, refl)

-- What an API token needs for a permission.
pub record TokenMay (db : AuthDb) (p : PermissionKey) (r : ResourceRef) (id org : Text)
    (owner : Option Text) : Type 0 where
  pub same_org : (o : Text) → truthy r.org_id ≡ some o → org ≡ o
  pub granted : Any (λ g. (g.subject_token_id ≡ some id) × Allows p r g) db.permission_grants
  pub owner_granted :
      (o : Text)
      → truthy owner ≡ some o
      → Any
          (λ g. (IsOwn o r.org_id g ⊎ IsGroups db.group_memberships o r.org_id g) × Allows p r g)
          db.permission_grants

module _ (db : AuthDb) (p : PermissionKey) (r : ResourceRef) where
  token_parts :
      {grants : List PermissionGrantRow} {id org : Text} {owner owner_name : Option Text}
      {action : Option Action}
      → Permitted action grants p r (api_token id org owner owner_name)
      → ((o : Text) → truthy r.org_id ≡ some o → org ≡ o) × Any (Allows p r) grants
  token_parts (token_grant o a) = (o, a)

  user_part :
      {grants : List PermissionGrantRow} {id name : Text} {action : Option Action}
      → Permitted action grants p r (user id name)
      → Any (Allows p r) grants
  user_part (user_grant a) = a

  module _ (id org : Text) (owner owner_name : Option Text) (action : Option Action) where
    abbrev who : Principal
    who = api_token id org owner owner_name

    both_allow :
        authorize_with db who action p r ≡ allow
        → (decide who action (permission_grants_for_token db id) p r ≡ allow)
          × (check_owner db who action p r ≡ allow)
    unfolding authorize_with grants_for_principal
    both_allow h =
        elim (Decision-cases (decide who action (permission_grants_for_token db id) p r)) [
          | inl yes' ↦ (yes', ground arith)
          | inr (c, m, no') ↦ absurd (cc (rw (no', authorize_with) at h))
        ]

    owner_allows :
        (o : Text)
        → truthy owner ≡ some o
        → check_owner db who action p r ≡ allow
        → owner_decision db o owner_name action p r ≡ allow
    unfolding check_owner
    owner_allows o set h = elim (Decision-cases (owner_decision db o owner_name action p r)) [
      | inl yes' ↦ yes'
      | inr (c, m, no') ↦ absurd (cc (rw (set, no', check_owner) at h))
    ]

    owner_sound :
        (o : Text)
        → owner_decision db o owner_name action p r ≡ allow
        → Any (Allows p r) (permission_grants_for_user db o r.org_id)
    unfolding owner_decision
    owner_sound o h = user_part (
        decide_sound (permission_grants_for_user db o r.org_id) p r
          (user o (or_else owner_name (codes "token-owner"))) action h)

    authorize_token_sound : authorize_with db who action p r ≡ allow → TokenMay db p r id org owner
    authorize_token_sound h =
        let (token, own) = both_allow h in
        let (same, granted) =
          token_parts (decide_sound (permission_grants_for_token db id) p r who action token) in
        record {
          same_org = same;
          granted = (token_grants_iff db p r id).0 granted;
          owner_granted = λ o set.
              (user_grants_iff o r.org_id db (Allows p r)).0
                (owner_sound o (owner_allows o set own));
        }

    owner_complete :
        ((o : Text)
          → truthy owner ≡ some o
          → Any (Allows p r) (permission_grants_for_user db o r.org_id))
        → check_owner db who action p r ≡ allow
    unfolding check_owner owner_decision
    owner_complete h = elim (Option-cases (truthy owner)) [
      | inl free ↦ rw (free, check_owner)
      | inr (o, set) ↦ rw (
        set,
        check_owner,
        decide_complete (permission_grants_for_user db o r.org_id) p r
            (user o (or_else owner_name (codes "token-owner"))) action (user_grant (h o set)),
      )
    ]

    authorize_token_complete :
        TokenMay db p r id org owner → authorize_with db who action p r ≡ allow
    unfolding authorize_with grants_for_principal
    authorize_token_complete m =
        rw
          (
            decide_complete (permission_grants_for_token db id) p r who action
                (token_grant m.same_org ((token_grants_iff db p r id).1 m.granted)),
            authorize_with,
          )
          (owner_complete
            (λ o set. (user_grants_iff o r.org_id db (Allows p r)).1 (m.owner_granted o set)))

-- `authorize` lets an API token act exactly when the resource names no other organisation than the
-- token's, a grant to the token allows the permission of the action there, and, where the token
-- has an owner, a grant allows it too that is one to the owner, of the organisation or of none, or
-- one of the organisation to a group that the owner is a member of there.
pub authorize_token_iff :
    (db : AuthDb) (id org : Text) (owner owner_name : Option Text) (action : Action)
    (r : ResourceRef)
    → (authorize db (api_token id org owner owner_name) action r ≡ allow)
      ↔ TokenMay db (permission_for_action action r.type) r id org owner
unfolding authorize
authorize_token_iff db id org owner owner_name action r = (
  authorize_token_sound db (permission_for_action action r.type) r id org owner owner_name
      (some action),
  authorize_token_complete db (permission_for_action action r.type) r id org owner owner_name
      (some action),
)
