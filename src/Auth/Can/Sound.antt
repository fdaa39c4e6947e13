-- ===== src/Auth/Can/Sound.antt =====
-- What an allowing decision of `can` rests on.
use hootifactory.Prelude.{
  ◌≡◌, refl, ◌↔◌, ◌≢◌, ◌⊎◌, inl, inr, Bool-cases, any_iff, contains_iff, codes, text_eq, true,
  false, List, Option, none, some, arith, Option-cases, Text, text_beq_iff, any, Any, contains,
}
use hootifactory.Auth.Permission.{
  PermissionKey, Action, ResourceType, repository, pkg, artifact, repository_read, package_read,
  artifact_read, key_eq,
}
use hootifactory.Auth.Principal.{
  Principal, anonymous, user, api_token, registry_token, RegistryAccess, ResourceRef, Visibility,
  private, public, allow, PermissionGrantRow, truthy, action_text,
}
use hootifactory.Auth.Grants.Decides.{Allows, permission_grants_allow_iff}
use hootifactory.Auth.Can.{
  CanInput, required_permission, deny_permission, is_public, is_public_type,
  public_read_permissions, access_grants, can_anonymous, can_registry, refuse_registry, can_granted,
  crosses_org, decide, can,
}

-- What anybody may read of a public repository.
abbrev pub PublicRead : PermissionKey → Type 0
PublicRead p = (repository_read ≡ p) ⊎ (package_read ≡ p) ⊎ (artifact_read ≡ p)

abbrev pub PublicType : ResourceType → Type 0
PublicType t = (t ≡ repository) ⊎ (t ≡ pkg) ⊎ (t ≡ artifact)

-- An entry of a registry token's access is for the repository of the name, and lists the action or
-- all actions.
abbrev pub Claims : Text → Action → RegistryAccess → Type 0
Claims name a access =
    (access.type ≡ codes "repository")
    × (access.name ≡ name)
    × (Any (λ x. x ≡ action_text a) access.actions ⊎ Any (λ x. x ≡ codes "*") access.actions)

-- The reasons for which each kind of principal may act.
pub data Permitted (action : Option Action) (grants : List PermissionGrantRow) (p : PermissionKey)
    (r : ResourceRef) : Principal → Type 0 where
  public_read :
      PublicRead p
      → r.visibility ≡ some public
      → PublicType r.type
      → Permitted action grants p r anonymous
  user_grant :
      {id name : Text} → Any (Allows p r) grants → Permitted action grants p r (user id name)
  token_grant :
      {id org : Text} {owner owner_name : Option Text}
      → ((o : Text) → truthy r.org_id ≡ some o → org ≡ o)
      → Any (Allows p r) grants
      → Permitted action grants p r (api_token id org owner owner_name)
  claim :
      {subject : Text} {access : List RegistryAccess} (a : Action) (name : Text)
      → action ≡ some a
      → truthy r.repository_name ≡ some name
      → Any (Claims name a) access
      → Permitted action grants p r (registry_token subject access)

PublicRead-iff : (p : PermissionKey) → (contains public_read_permissions p ≡ true) ↔ PublicRead p
PublicRead-iff p =
    let all = contains_iff public_read_permissions p in
    (
      λ h. elim (all.0 h) [
        | inl a ↦ inl a
        | inr (inl b) ↦ inr (inl b)
        | inr (inr (inl c)) ↦ inr (inr c)
        | inr (inr (inr no')) ↦ absurd no'
      ],
      λ h. elim h [
        | inl a ↦ all.1 (inl a)
        | inr (inl b) ↦ all.1 (inr (inl b))
        | inr (inr c) ↦ all.1 (inr (inr (inl c)))
      ],
    )

public_type_iff : (t : ResourceType) → (is_public_type t ≡ true) ↔ PublicType t
public_type_iff t = ground arith

access_grants_iff :
    (name : Text) (a : Action) (access : RegistryAccess)
    → (access_grants name a access ≡ true) ↔ Claims name a access
unfolding access_grants
access_grants_iff name a access =
    let type_is = text_beq_iff access.type (codes "repository") in
    let name_is = text_beq_iff access.name name in
    let one = contains_iff access.actions (action_text a) in
    let every = contains_iff access.actions (codes "*") in
    (
      λ h. (
        type_is.0 (ground arith),
        name_is.0 (ground arith),
        elim (Bool-cases (contains access.actions (action_text a))) [
          | inl y ↦ inl (one.0 y)
          | inr n ↦ inr (every.0 (ground arith))
        ],
      ),
      λ h. elim h.2 [
        | inl listed ↦ ground (arith, type_is.1 h.0, name_is.1 h.1, one.1 listed)
        | inr starred ↦ ground (arith, type_is.1 h.0, name_is.1 h.1, every.1 starred)
      ],
    )

module _ (grants : List PermissionGrantRow) (p : PermissionKey) (r : ResourceRef) where
  can_granted_iff : (can_granted grants p r ≡ allow) ↔ Any (Allows p r) grants
  unfolding can_granted deny_permission
  can_granted_iff = (
    λ h. (permission_grants_allow_iff grants p r).0 (ground arith),
    λ a. ground (arith, (permission_grants_allow_iff grants p r).1 a),
  )

  crosses_org_iff :
      (org : Text) → (crosses_org org r ≡ false) ↔ ((o : Text) → truthy r.org_id ≡ some o → org ≡ o)
  unfolding crosses_org
  crosses_org_iff org = elim (Option-cases (truthy r.org_id)) [
    | inl free ↦ (λ h o e. absurd (cc (free, e)), λ h. rw (free, crosses_org))
    | inr (o, set) ↦ (
      λ h q e. (text_beq_iff org q).0 (ground arith),
      λ h. ground (arith, (text_beq_iff org o).1 (h o set)),
    )
  ]

  is_public_sound : (v : Option Visibility) → is_public v ≡ true → v ≡ some public
  is_public_sound none h = cc
  is_public_sound (some private) h = cc
  is_public_sound (some public) h = refl

  anonymous_sound :
      can_anonymous p r ≡ allow
      → (contains public_read_permissions p ≡ true)
        × (is_public r.visibility ≡ true)
        × (is_public_type r.type ≡ true)
  unfolding can_anonymous
  anonymous_sound h = ground arith

  anonymous_complete :
      contains public_read_permissions p ≡ true
      → r.visibility ≡ some public
      → is_public_type r.type ≡ true
      → can_anonymous p r ≡ allow
  unfolding can_anonymous
  anonymous_complete q v t = ground arith

  registry_needs_action : (access : List RegistryAccess) → can_registry access none p r ≢ allow
  unfolding can_registry deny_permission
  registry_needs_action access h = cc

  registry_sound :
      (access : List RegistryAccess) (a : Action)
      → can_registry access (some a) p r ≡ allow
      → (name : Text) × (truthy r.repository_name ≡ some name)
        × (any (access_grants name a) access ≡ true)
  unfolding can_registry refuse_registry
  registry_sound access a h = elim (Option-cases (truthy r.repository_name)) [
    | inl unnamed ↦ absurd (cc (rw (unnamed, can_registry) at h))
    | inr (name, named) ↦ (name, named, ground arith)
  ]

  registry_complete :
      (access : List RegistryAccess) (action : Option Action) (a : Action) (name : Text)
      → action ≡ some a
      → truthy r.repository_name ≡ some name
      → any (access_grants name a) access ≡ true
      → can_registry access action p r ≡ allow
  unfolding can_registry
  registry_complete access action a name e n g = rw e (ground arith)

  pub decide_sound :
      (who : Principal) (action : Option Action)
      → decide who action grants p r ≡ allow
      → Permitted action grants p r who
  unfolding decide
  decide_sound anonymous action h =
      let (q, v, t) = anonymous_sound h in
      public_read ((PublicRead-iff p).0 q) (is_public_sound r.visibility v)
        ((public_type_iff r.type).0 t)
  decide_sound (user id name) action h = user_grant (can_granted_iff.0 h)
  decide_sound (api_token id org owner owner_name) action h =
      token_grant ((crosses_org_iff org).0 (ground arith)) (can_granted_iff.0 (ground arith))
  decide_sound (registry_token subject access) none h = absurd (registry_needs_action access h)
  decide_sound (registry_token subject access) (some a) h =
      let (name, named, granted) = registry_sound access a h in
      claim a name refl named ((any_iff (access_grants_iff name a) access).0 granted)

  pub decide_complete :
      (who : Principal) (action : Option Action)
      → Permitted action grants p r who
      → decide who action grants p r ≡ allow
  unfolding decide
  decide_complete anonymous action (public_read q v t) =
      anonymous_complete ((PublicRead-iff p).1 q) v ((public_type_iff r.type).1 t)
  decide_complete (user id name) action (user_grant a) = can_granted_iff.1 a
  decide_complete (api_token id org owner owner_name) action (token_grant o a) =
      ground (arith, (crosses_org_iff org).1 o, can_granted_iff.1 a)
  decide_complete (registry_token subject access) action (claim a name e n g) =
      registry_complete access action a name e n ((any_iff (access_grants_iff name a) access).1 g)

-- Where an action or a permission is given, `can` allows exactly what its principal may do: an
-- anonymous caller a public read of a public repository, package or artifact; a user what one of
-- the grants allows; an API token the same, within its own organisation; a registry token an
-- action that one of its entries for the repository lists, by itself or by a star.
pub can_iff :
    (input : CanInput) (p : PermissionKey)
    → required_permission input ≡ some p
    → (can input ≡ some allow)
      ↔ Permitted input.action input.grants p input.resource input.principal
unfolding can
can_iff input p e = (
  λ h. decide_sound input.grants p input.resource input.principal input.action (ground arith),
  λ h. ground (arith, decide_complete input.grants p input.resource input.principal input.action h),
)
