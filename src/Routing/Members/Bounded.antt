-- ===== src/Routing/Members/Bounded.antt =====
-- What holds of the members of virtual repositories
-- (packages/registry-platform/src/repositories/virtual.ts).
use hootifactory.Prelude.{
  ℕ, ◌≤◌, ◌≡◌, Bool, true, not, ◌&&◌, List, [], ◌∷◌, Option, nat_eq, length, any, all,
}
use hootifactory.Routing.Members.{
  MemberRow, members_are, is_member, members_of, crosses_orgs, add_virtual_member,
}

-- No repository is a member of a virtual repository twice.
abbrev pub distinct_members : List MemberRow → Bool
distinct_members [] = true
distinct_members (row ∷ rows) =
    not (any (is_member row.virtual_repo row.member_repo) rows) && distinct_members rows

module _ (org_of : ℕ → Option ℕ) (max_members : ℕ) where
  abbrev pub stays_in_org : MemberRow → Bool
  stays_in_org row = not (crosses_orgs (org_of row.virtual_repo) (org_of row.member_repo))

  -- At most so many members, each one once, none of another organisation.
  pub record IsMembership (rows : List MemberRow) : Type 0 where
    pub bounded : (v : ℕ) → length (members_of v rows) ≤ max_members
    pub once : distinct_members rows ≡ true
    pub own : all stays_in_org rows ≡ true

  -- What calls make of no members.
  pub data Joined : List MemberRow → Type 0 where
    nobody : Joined []
    added :
        {rows : List MemberRow} (virtual_repo member_repo position : ℕ) {new : List MemberRow}
        → Joined rows
        → add_virtual_member org_of max_members virtual_repo member_repo position rows
          ≡ members_are new
        → Joined new
