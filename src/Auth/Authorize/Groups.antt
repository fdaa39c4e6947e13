-- ===== src/Auth/Authorize/Groups.antt =====
-- The grants to the groups of a user, as packages/auth/src/permission-grants.ts selects them.
use hootifactory.Prelude.{
  ◌≡◌, sym, ◌∙◌, ◌↔◌, inl, inr, true, false, ◌&&◌, List, [], ◌∷◌, Option, none, some, arith,
  Option-cases, Bool-cases, Text, Any, Any-iff, contains, keep, map, text_eq, text_beq,
  text_beq_iff,
}
use hootifactory.Auth.Principal.{PermissionGrantRow, truthy}
use hootifactory.Auth.Grants.Decides.{text_is_iff}
use hootifactory.Auth.Authorize.{GroupMembership, group_ids, grant_of_group, AuthDb}

-- A grant, in the organisation of the resource, to a group in which the user is there.
abbrev pub IsGroups : List GroupMembership → Text → Option Text → PermissionGrantRow → Type 0
IsGroups memberships user_id org_id g =
    (org : Text) × (truthy org_id ≡ some org)
    × (g.org_id ≡ some org)
    × Any (λ m. (g.group_id ≡ some m.group_id) × (m.member_id ≡ user_id) × (m.org_id ≡ org))
        memberships

no_group :
    (B C : GroupMembership → Type 0) (a : Option Text)
    → a ≡ none
    → (ms : List GroupMembership) → Any (λ m. (a ≡ some m.group_id) × B m × C m) ms
    → ⊥
no_group B C a unset [] i = i
no_group B C a unset (m ∷ ms) i = elim i [
  | inl here ↦ cc (unset, here.0)
  | inr later ↦ no_group B C a unset ms later
]

-- The group of a grant, as the code compares it and as a membership names it.
group_eq :
    {B C : Type 0} (a : Option Text) (id : Text) (m : GroupMembership)
    → a ≡ some id
    → ((m.group_id ≡ id) × B × C) ↔ ((a ≡ some m.group_id) × B × C)
group_eq a id m has = (
  λ (e, q, r). (rw e has, q, r),
  λ (e, q, r). ((let f : m.group_id ≡ id = cc (e, has) in f), q, r),
)

module _ (user_id : Text) (org_id : Option Text) where
  member_iff :
      (memberships : List GroupMembership) (org id : Text)
      → (contains
            (map
              (λ m. m.group_id)
              (keep (λ m. text_beq m.member_id user_id && text_beq m.org_id org) memberships))
            id
          ≡ true)
        ↔ Any (λ m. (m.group_id ≡ id) × (m.member_id ≡ user_id) × (m.org_id ≡ org)) memberships
  member_iff [] org id = (λ h. absurd (let f : false ≡ true = h in cc f), λ i. absurd i)
  member_iff (m ∷ ms) org id =
      let rest = member_iff ms org id in
      let mine = text_beq_iff m.member_id user_id in
      let there = text_beq_iff m.org_id org in
      let same = text_beq_iff m.group_id id in
      elim (Bool-cases (text_beq m.member_id user_id && text_beq m.org_id org)) [
        | inl y ↦ rw y (
          λ h. elim (Bool-cases (text_beq m.group_id id)) [
            | inl here ↦ inl (same.0 here, mine.0 (ground arith), there.0 (ground arith))
            | inr other ↦ inr (rest.0 (ground arith))
          ],
          λ i. elim i [
            | inl here ↦ ground (arith, same.1 here.0)
            | inr later ↦ ground (arith, rest.1 later)
          ],
        )
        | inr n ↦ rw n (
          λ h. inr (rest.0 h),
          λ i. elim i [
            | inl here ↦ absurd (
                let y : (text_beq m.member_id user_id && text_beq m.org_id org) ≡ true =
                  ground (arith, mine.1 here.1, there.1 here.2) in
                let f : true ≡ false = sym y ∙ n in cc f)
            | inr later ↦ rest.1 later
          ],
        )
      ]

  pub group_iff :
      (db : AuthDb) (org : Text)
      → truthy org_id ≡ some org
      → (g : PermissionGrantRow)
      → (grant_of_group (group_ids db user_id org) org g ≡ true)
        ↔ IsGroups db.group_memberships user_id org_id g
  unfolding group_ids
  group_iff db org set g = elim (Option-cases g.group_id) [
    | inl unset ↦ (
      λ h. absurd (let f : false ≡ true = rw unset at h in cc f),
      λ (o, e, here, i). absurd (
          no_group (λ m. m.member_id ≡ user_id) (λ m. m.org_id ≡ o) g.group_id unset
            db.group_memberships i),
    )
    | inr (id, has) ↦
        let members = member_iff db.group_memberships org id in
        let there = text_is_iff org g.org_id in
        (
          λ h.
              let h' = rw has at h in
              (
                org,
                set,
                there.0 (ground arith),
                (Any-iff (λ m. group_eq g.group_id id m has) db.group_memberships).0
                    (members.0 (ground arith)),
              ),
          λ (o, e, here, i).
              let same : o ≡ org = cc (set, e) in
              let i' =
                (Any-iff (λ m. group_eq g.group_id id m has) db.group_memberships).1
                  (rw same at i) in
              rw has (ground (arith, members.1 i', there.1 (rw same at here))),
        )
  ]
