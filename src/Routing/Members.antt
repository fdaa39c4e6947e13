-- ===== src/Routing/Members.antt =====
-- packages/registry-platform/src/repositories/virtual.ts: the members of virtual repositories. The
-- lock on the row of the virtual repository serialises the transactions on it, so each is one
-- function.
pub mod Bounded
use hootifactory.Prelude.{
  ℕ, ◌+◌, Bool, true, false, not, ◌&&◌, ◌||◌, List, [], ◌∷◌, Option, none, some, ◌==◌, nat_eq,
  if◌then◌else◌, leb, length, keep, any,
}

pub record MemberRow : Type 0 where
  pub virtual_repo : ℕ
  pub member_repo : ℕ
  pub position : ℕ

-- What `addVirtualMember` throws.
pub data MemberError : Type 0 where
  member_limit_exceeded member_org_mismatch : MemberError

pub data MemberResult : Type 0 where
  members_are : List MemberRow → MemberResult
  refused : MemberError → MemberResult

abbrev pub is_member : ℕ → ℕ → MemberRow → Bool
is_member virtual_repo member_repo row =
    row.virtual_repo == virtual_repo && row.member_repo == member_repo

abbrev pub members_of : ℕ → List MemberRow → List MemberRow
members_of virtual_repo rows = keep (λ row. row.virtual_repo == virtual_repo) rows

-- Both repositories exist and their organisations differ.
abbrev pub crosses_orgs : Option ℕ → Option ℕ → Bool
crosses_orgs none member = false
crosses_orgs (some parent) none = false
crosses_orgs (some parent) (some member) = not (member == parent)

-- The organisation of each repository that exists, and `REGISTRY_MAX_VIRTUAL_MEMBERS`.
module _ (org_of : ℕ → Option ℕ) (max_members : ℕ) where
  unfoldable pub add_virtual_member : ℕ → ℕ → ℕ → List MemberRow → MemberResult
  add_virtual_member virtual_repo member_repo position rows =
      if crosses_orgs (org_of virtual_repo) (org_of member_repo)
      then refused member_org_mismatch
      else if any (is_member virtual_repo member_repo) rows
      then members_are rows
      else if leb max_members (length (members_of virtual_repo rows))
      then refused member_limit_exceeded
      else members_are (
          record { virtual_repo = virtual_repo; member_repo = member_repo; position = position }
          ∷ rows)
