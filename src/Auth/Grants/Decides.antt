-- ===== src/Auth/Grants/Decides.antt =====
-- What a grant allows, stated apart from the code's chain of tests.
use hootifactory.Prelude.{
  ◌≡◌, ◌↔◌, ◌≢◌, ◌⊎◌, inl, inr, true, false, List, Option, none, some, arith, Bool-cases,
  Option-cases, Text, text_beq_iff, any_iff, Any,
}
use hootifactory.Auth.Permission.{PermissionKey, system_admin, key_beq, key_beq_iff}
use hootifactory.Auth.Permission.Implication.{Implies, permission_implies_iff}
use hootifactory.Auth.Scope.Matching.{Matches, pattern_matches_iff}
use hootifactory.Auth.Principal.{
  PermissionGrantRow, ResourceRef, PolicyName, any_policy, TokenTarget, truthy, text_is,
}
use hootifactory.Auth.Grants.{
  id_blocks, pattern_blocks, policy_blocks, target_blocks, same_org, scope_matches, admin_scope,
  limited_scope, permission_grant_allows, permission_grants_allow,
}

-- A restriction on an identifier: a set one is the resource's.
abbrev pub Names : Option Text → Option Text → Type 0
Names wanted actual = (t : Text) → truthy wanted ≡ some t → actual ≡ some t

-- A restriction by pattern: the resource has a name, and the set pattern matches it.
abbrev pub Covers : Option Text → Option Text → Type 0
Covers wanted actual =
    (p : Text)
    → truthy wanted ≡ some p
    → (name : Text) × (truthy actual ≡ some name) × Matches p name

-- The scope of a grant below `system.admin` reaches a resource.
pub record Reaches (g : PermissionGrantRow) (r : ResourceRef) : Type 0 where
  pub in_org : (o : Text) × (truthy g.org_id ≡ some o) × (r.org_id ≡ some o)
  pub repository : Names g.repository_id r.repository_id
  pub repository_name : Covers g.repository_pattern r.repository_name
  pub package_name : Covers g.package_pattern r.package_name
  pub artifact : Covers g.artifact_pattern r.artifact_ref
  pub policy : (g.policy ≡ none) ⊎ (g.policy ≡ some any_policy) ⊎ (g.policy ≡ r.policy)
  pub target : (g.token_target ≡ none) ⊎ (g.token_target ≡ r.token_target)
  pub token : Names g.target_token_id r.token_id

pub text_is_iff : (t : Text) (a : Option Text) → (text_is t a ≡ true) ↔ (a ≡ some t)
text_is_iff t none = ground arith
text_is_iff t (some s) = ground (arith, text_beq_iff t s)

id_blocks_iff : (w a : Option Text) → (id_blocks w a ≡ false) ↔ Names w a
unfolding id_blocks
id_blocks_iff w a = elim (Option-cases (truthy w)) [
  | inl free ↦ (λ h t e. absurd (cc (free, e)), λ h. rw (free, id_blocks))
  | inr (t, set) ↦ (
    λ h u e. (text_is_iff u a).0 (ground arith),
    λ h. ground (arith, (text_is_iff t a).1 (h t set)),
  )
]

pattern_blocks_iff : (w a : Option Text) → (pattern_blocks w a ≡ false) ↔ Covers w a
unfolding pattern_blocks
pattern_blocks_iff w a = elim (Option-cases (truthy w)) [
  | inl free ↦ (λ h p e. absurd (cc (free, e)), λ h. rw (free, pattern_blocks))
  | inr (p, set) ↦ elim (Option-cases (truthy a)) [
    | inl unnamed ↦ (
      λ h q e. absurd (cc (rw (set, unnamed, pattern_blocks) at h)),
      λ h. absurd (cc (unnamed, (h p set).1)),
    )
    | inr (name, named) ↦ (
      λ h q e. (name, named, (pattern_matches_iff q name).0 (ground arith)),
      λ h. let (n, e, m) = h p set in ground (arith, (pattern_matches_iff p n).1 m),
    )
  ]
]

policy_blocks_iff :
    (w a : Option PolicyName)
    → (policy_blocks w a ≡ false) ↔ ((w ≡ none) ⊎ (w ≡ some any_policy) ⊎ (w ≡ a))
unfolding policy_blocks
policy_blocks_iff w a = ground arith

target_blocks_iff :
    (w a : Option TokenTarget) → (target_blocks w a ≡ false) ↔ ((w ≡ none) ⊎ (w ≡ a))
unfolding target_blocks
target_blocks_iff w a = ground arith

same_org_iff :
    (w a : Option Text) → (same_org w a ≡ true) ↔ ((o : Text) × (truthy w ≡ some o) × (a ≡ some o))
unfolding same_org
same_org_iff w a = elim (Option-cases (truthy w)) [
  | inl free ↦ (λ h. absurd (cc (rw (free, same_org) at h)), λ h. absurd (cc (free, h.1)))
  | inr (o, set) ↦ (
    λ h. (o, set, (text_is_iff o a).0 (ground arith)),
    λ h. ground (arith, (text_is_iff h.0 a).1 h.2),
  )
]

-- A grant of `system.admin` counts only when it is restricted in no way.
pub record Unrestricted (g : PermissionGrantRow) : Type 0 where
  pub no_org : g.org_id ≡ none
  pub no_repository : g.repository_id ≡ none
  pub no_repository_pattern : g.repository_pattern ≡ none
  pub no_package_pattern : g.package_pattern ≡ none
  pub no_artifact_pattern : g.artifact_pattern ≡ none
  pub no_policy : g.policy ≡ none
  pub no_target : g.token_target ≡ none
  pub no_token : g.target_token_id ≡ none

pub data InScope (g : PermissionGrantRow) (r : ResourceRef) : Type 0 where
  everywhere : g.permission ≡ system_admin → Unrestricted g → InScope g r
  within : g.permission ≢ system_admin → Reaches g r → InScope g r

module _ (g : PermissionGrantRow) (r : ResourceRef) where
  admin_scope_iff : (admin_scope g ≡ true) ↔ Unrestricted g
  unfolding admin_scope
  admin_scope_iff = ground arith

  limited_tests :
      limited_scope g r ≡ true
      → (same_org g.org_id r.org_id ≡ true)
        × (id_blocks g.repository_id r.repository_id ≡ false)
        × (pattern_blocks g.repository_pattern r.repository_name ≡ false)
        × (pattern_blocks g.package_pattern r.package_name ≡ false)
        × (pattern_blocks g.artifact_pattern r.artifact_ref ≡ false)
        × (policy_blocks g.policy r.policy ≡ false)
        × (target_blocks g.token_target r.token_target ≡ false)
        × (id_blocks g.target_token_id r.token_id ≡ false)
  unfolding limited_scope
  limited_tests h = ground arith

  limited_scope_sound : limited_scope g r ≡ true → Reaches g r
  limited_scope_sound h =
      let (org, repo, name, package_, artifact, policy, target, token) = limited_tests h in
      record {
        in_org = (same_org_iff g.org_id r.org_id).0 org;
        repository = (id_blocks_iff g.repository_id r.repository_id).0 repo;
        repository_name = (pattern_blocks_iff g.repository_pattern r.repository_name).0 name;
        package_name = (pattern_blocks_iff g.package_pattern r.package_name).0 package_;
        artifact = (pattern_blocks_iff g.artifact_pattern r.artifact_ref).0 artifact;
        policy = (policy_blocks_iff g.policy r.policy).0 policy;
        target = (target_blocks_iff g.token_target r.token_target).0 target;
        token = (id_blocks_iff g.target_token_id r.token_id).0 token;
      }

  limited_scope_complete : Reaches g r → limited_scope g r ≡ true
  unfolding limited_scope
  limited_scope_complete c = ground (
    arith,
    (same_org_iff g.org_id r.org_id).1 c.in_org,
    (id_blocks_iff g.repository_id r.repository_id).1 c.repository,
    (pattern_blocks_iff g.repository_pattern r.repository_name).1 c.repository_name,
    (pattern_blocks_iff g.package_pattern r.package_name).1 c.package_name,
    (pattern_blocks_iff g.artifact_pattern r.artifact_ref).1 c.artifact,
    (policy_blocks_iff g.policy r.policy).1 c.policy,
    (target_blocks_iff g.token_target r.token_target).1 c.target,
    (id_blocks_iff g.target_token_id r.token_id).1 c.token,
  )

  scope_matches_sound : scope_matches g r ≡ true → InScope g r
  unfolding scope_matches
  scope_matches_sound h = elim (Bool-cases (key_beq g.permission system_admin)) [
    | inl top ↦
        everywhere ((key_beq_iff g.permission system_admin).0 top)
          (admin_scope_iff.0 (ground arith))
    | inr below ↦
        within (λ e. cc (below, (key_beq_iff g.permission system_admin).1 e))
          (limited_scope_sound (ground arith))
  ]

  scope_matches_complete : InScope g r → scope_matches g r ≡ true
  unfolding scope_matches
  scope_matches_complete (everywhere top free) =
      ground (arith, (key_beq_iff g.permission system_admin).1 top, admin_scope_iff.1 free)
  scope_matches_complete (within below c) = elim (Bool-cases (key_beq g.permission system_admin)) [
    | inl top ↦ absurd (below ((key_beq_iff g.permission system_admin).0 top))
    | inr other ↦ ground (arith, limited_scope_complete c)
  ]

-- A grant allows what its permission implies, within its scope.
pub record Allows (required : PermissionKey) (r : ResourceRef) (g : PermissionGrantRow)
    : Type 0 where
  pub implied : Implies g.permission required
  pub in_scope : InScope g r

one_grant_iff :
    (required : PermissionKey) (r : ResourceRef) (g : PermissionGrantRow)
    → (permission_grant_allows g required r ≡ true) ↔ Allows required r g
unfolding permission_grant_allows
one_grant_iff required r g = (
  λ h. record {
    implied = (permission_implies_iff g.permission required).1.0 (ground arith);
    in_scope = scope_matches_sound g r (ground arith);
  },
  λ a. ground (
    arith,
    (permission_implies_iff g.permission required).1.1 a.implied,
    scope_matches_complete g r a.in_scope,
  ),
)

-- A list of grants allows a permission on a resource exactly when one of them is in scope there
-- and its permission implies the required one.
pub permission_grants_allow_iff :
    (grants : List PermissionGrantRow) (required : PermissionKey) (r : ResourceRef)
    → (permission_grants_allow grants required r ≡ true) ↔ Any (Allows required r) grants
unfolding permission_grants_allow
permission_grants_allow_iff grants required r = any_iff (one_grant_iff required r) grants
