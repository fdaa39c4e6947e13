-- ===== src/Auth/Authorize/Queries.antt =====
-- The rows that the queries of packages/auth/src/permission-grants.ts select, described row by row.
use hootifactory.Prelude.{
  ◌≡◌, refl, ◌↔◌, ◌⊎◌, inl, inr, true, ◌&&◌, List, [], ◌∷◌, ◌++◌, Option, none, some, arith,
  Option-cases, List-cases, Text, Any, Any-iff, Any-append, Any-or, Any-keep, keep, text_eq,
  text_beq_iff,
}
use hootifactory.Auth.Permission.{PermissionKey}
use hootifactory.Auth.Principal.{ResourceRef, PermissionGrantRow, truthy, text_is}
use hootifactory.Auth.Grants.Decides.{Allows, text_is_iff}
use hootifactory.Auth.Authorize.{
  in_org_or_global, direct_grants, group_ids, grant_of_group, AuthDb, permission_grants_for_user,
  permission_grants_for_token,
}
use hootifactory.Auth.Authorize.Groups.{IsGroups, group_iff}

-- A grant to the user, of the organisation of the resource or of none, if the resource names one.
abbrev pub IsOwn : Text → Option Text → PermissionGrantRow → Type 0
IsOwn user_id org_id g =
    (g.user_id ≡ some user_id)
    × ((org : Text) → truthy org_id ≡ some org → (g.org_id ≡ none) ⊎ (g.org_id ≡ some org))

global_iff :
    (org : Text) (a : Option Text) → (in_org_or_global org a ≡ true) ↔ ((a ≡ none) ⊎ (a ≡ some org))
global_iff org none = (λ h. inl refl, λ h. refl)
global_iff org (some o) = (
  λ h. inr (let e : org ≡ o = (text_beq_iff org o).0 h in rw e refl),
  λ h. elim h [
    | inl no' ↦ absurd (cc no')
    | inr e ↦ (text_beq_iff org o).1 (let f : org ≡ o = cc e in f)
  ],
)

pub iff_then : {A B C : Type 0} → (A ↔ B) → (B ↔ C) → (A ↔ C)
iff_then f g = (λ a. g.0 (f.0 a), λ c. f.1 (g.1 c))

pub and_iff : {A B C : Type 0} → (A ↔ B) → ((A × C) ↔ (B × C))
and_iff f = (λ (a, c). (f.0 a, c), λ (b, c). (f.1 b, c))

or_iff : {A B C D : Type 0} → (A ↔ B) → (C ↔ D) → ((A ⊎ C) ↔ (B ⊎ D))
or_iff f g = (
  λ h. elim h [ inl a ↦ inl (f.0 a) | inr c ↦ inr (g.0 c) ],
  λ h. elim h [ inl b ↦ inl (f.1 b) | inr d ↦ inr (g.1 d) ],
)

spread : {A B C : Type 0} → ((A × C) ⊎ (B × C)) ↔ ((A ⊎ B) × C)
spread = (
  λ h. elim h [ inl (a, c) ↦ (inl a, c) | inr (b, c) ↦ (inr b, c) ],
  λ (h, c). elim h [ inl a ↦ inl (a, c) | inr b ↦ inr (b, c) ],
)

Any-none :
    {P : PermissionGrantRow → Type 0}
    → ((g : PermissionGrantRow) → P g → ⊥)
    → (gs : List PermissionGrantRow) → Any P gs
    → ⊥
Any-none h [] i = i
Any-none h (g ∷ gs) i = elim i [ inl here ↦ h g here | inr later ↦ Any-none h gs later ]

module _ (user_id : Text) (org_id : Option Text) where
  IsOwn-free :
      truthy org_id ≡ none
      → (g : PermissionGrantRow) → (text_is user_id g.user_id ≡ true) ↔ IsOwn user_id org_id g
  IsOwn-free free g = (
    λ h. ((text_is_iff user_id g.user_id).0 h, λ o e. absurd (cc (free, e))),
    λ h. (text_is_iff user_id g.user_id).1 h.0,
  )

  IsOwn-set :
      (org : Text)
      → truthy org_id ≡ some org
      → (g : PermissionGrantRow)
      → ((text_is user_id g.user_id && in_org_or_global org g.org_id) ≡ true)
        ↔ IsOwn user_id org_id g
  IsOwn-set org set g =
      let mine = text_is_iff user_id g.user_id in
      let there = global_iff org g.org_id in
      (
        λ h. (
          mine.0 (ground arith),
          λ o e. (let same : org ≡ o = cc (set, e) in rw (← same) (there.0 (ground arith))),
        ),
        λ h. ground (arith, mine.1 h.0, there.1 (h.1 org set)),
      )

  direct_iff :
      (db : AuthDb) (Q : PermissionGrantRow → Type 0)
      → Any Q (direct_grants db user_id org_id)
        ↔ Any (λ g. IsOwn user_id org_id g × Q g) db.permission_grants
  unfolding direct_grants
  direct_iff db Q = elim (Option-cases (truthy org_id)) [
    | inl free ↦
        let e : direct_grants db user_id org_id
            ≡ keep (λ g. text_is user_id g.user_id) db.permission_grants =
          rw (free, direct_grants) refl in
        rw e (
          iff_then (Any-keep Q (λ g. text_is user_id g.user_id) db.permission_grants)
            (Any-iff (λ g. and_iff (IsOwn-free free g)) db.permission_grants))
    | inr (org, set) ↦
        let e : direct_grants db user_id org_id
            ≡ keep (λ g. text_is user_id g.user_id && in_org_or_global org g.org_id)
                db.permission_grants =
          rw (set, direct_grants) refl in
        rw e (
          iff_then
            (Any-keep Q (λ g. text_is user_id g.user_id && in_org_or_global org g.org_id)
              db.permission_grants)
            (Any-iff (λ g. and_iff (IsOwn-set org set g)) db.permission_grants))
  ]

  abbrev OwnIn : AuthDb → (PermissionGrantRow → Type 0) → Type 0
  OwnIn db Q = Any (λ g. IsOwn user_id org_id g × Q g) db.permission_grants

  abbrev GroupsIn : AuthDb → (PermissionGrantRow → Type 0) → Type 0
  GroupsIn db Q =
      Any (λ g. IsGroups db.group_memberships user_id org_id g × Q g) db.permission_grants

  -- The rows of the second query, where the user is in a group.
  groups_iff :
      (db : AuthDb) (Q : PermissionGrantRow → Type 0) (org : Text)
      → truthy org_id ≡ some org
      → Any Q (keep (grant_of_group (group_ids db user_id org) org) db.permission_grants)
        ↔ GroupsIn db Q
  groups_iff db Q org set =
      iff_then (Any-keep Q (grant_of_group (group_ids db user_id org) org) db.permission_grants)
        (Any-iff (λ g. and_iff (group_iff user_id org_id db org set g)) db.permission_grants)

  unlisted :
      (org : Text) (gs : List PermissionGrantRow) (Q : PermissionGrantRow → Type 0)
      → Any Q (keep (grant_of_group [] org) gs)
      → ⊥
  unlisted org [] Q i = i
  unlisted org (g ∷ gs) Q i = elim (Option-cases g.group_id) [
    | inl unset ↦ unlisted org gs Q (rw unset at i)
    | inr (id, has) ↦ unlisted org gs Q (rw has at i)
  ]

  queried :
      (db : AuthDb) (Q : PermissionGrantRow → Type 0)
      → Any Q (permission_grants_for_user db user_id org_id) ↔ (OwnIn db Q ⊎ GroupsIn db Q)
  unfolding permission_grants_for_user
  queried db Q =
      let own = direct_iff db Q in
      let direct = direct_grants db user_id org_id in
      elim (Option-cases (truthy org_id)) [
        | inl free ↦
            let e : permission_grants_for_user db user_id org_id ≡ direct =
              rw (free, permission_grants_for_user) refl in
            rw e (
              λ h. inl (own.0 h),
              λ h. elim h [
                | inl mine ↦ own.1 mine
                | inr theirs ↦
                    absurd (Any-none (λ g x. cc (free, x.0.1)) db.permission_grants theirs)
              ],
            )
        | inr (org, set) ↦
            let groups = groups_iff db Q org set in
            elim (List-cases (group_ids db user_id org)) [
              | inl nobody ↦
                  let e : permission_grants_for_user db user_id org_id ≡ direct =
                    rw (set, permission_grants_for_user, nobody) refl in
                  rw e (
                    λ h. inl (own.0 h),
                    λ h. elim h [
                      | inl mine ↦ own.1 mine
                      | inr theirs ↦
                          absurd
                            (unlisted org db.permission_grants Q (rw nobody at (groups.1 theirs)))
                    ],
                  )
              | inr (id, ids, some') ↦
                  let rows = keep (grant_of_group (id ∷ ids) org) db.permission_grants in
                  let e : permission_grants_for_user db user_id org_id ≡ direct ++ rows =
                    rw (set, permission_grants_for_user, some') refl in
                  let groups' : Any Q rows ↔ GroupsIn db Q = rw some' at groups in
                  rw e (iff_then (Any-append Q direct rows) (or_iff own groups'))
            ]
      ]

  -- A grant of the user, or of the groups of the user.
  pub user_grants_iff :
      (db : AuthDb) (Q : PermissionGrantRow → Type 0)
      → Any Q (permission_grants_for_user db user_id org_id)
        ↔ Any
            (λ g. (IsOwn user_id org_id g ⊎ IsGroups db.group_memberships user_id org_id g) × Q g)
            db.permission_grants
  user_grants_iff db Q =
      let both = queried db Q in
      let split =
        Any-or (λ g. IsOwn user_id org_id g × Q g)
          (λ g. IsGroups db.group_memberships user_id org_id g × Q g) db.permission_grants in
      let shape = Any-iff (λ g. spread {C = Q g}) db.permission_grants in
      (λ h. shape.0 (split.1 (both.0 h)), λ h. both.1 (split.0 (shape.1 h)))

pub token_grants_iff :
    (db : AuthDb) (p : PermissionKey) (r : ResourceRef) (id : Text)
    → Any (Allows p r) (permission_grants_for_token db id)
      ↔ Any (λ g. (g.subject_token_id ≡ some id) × Allows p r g) db.permission_grants
unfolding permission_grants_for_token
token_grants_iff db p r id =
    iff_then (Any-keep (Allows p r) (λ g. text_is id g.subject_token_id) db.permission_grants)
      (Any-iff (λ g. and_iff (text_is_iff id g.subject_token_id)) db.permission_grants)
