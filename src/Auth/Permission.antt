-- ===== src/Auth/Permission.antt =====
-- packages/types/src/index.ts (permission keys, actions, resource types) and the permission
-- model of packages/auth/src/permissions.ts.
pub mod Implication
pub mod Required
use hootifactory.Prelude.{
  ℕ, zero, suc, ◌≡◌, refl, ap, ◌↔◌, List, [], ◌∷◌, Option, none, some, arith, Comparable, nat_beq,
  nat_beq_iff, Text, codes, Bool, true, all,
}

pub data Action : Type 0 where
  read write delete admin : Action

pub data ResourceType : Type 0 where
  org repository pkg artifact policy token system : ResourceType

pub data PermissionKey : Type 0 where
  system_admin org_read org_update org_delete : PermissionKey
  org_member_read org_member_manage user_read user_create : PermissionKey
  user_update user_deactivate user_reset_password group_read : PermissionKey
  group_create group_update group_delete group_member_manage : PermissionKey
  group_permission_manage permission_read permission_grant repository_read : PermissionKey
  repository_create repository_update repository_write repository_delete : PermissionKey
  repository_permission_manage package_read package_write package_delete : PermissionKey
  artifact_read artifact_write artifact_delete policy_read : PermissionKey
  policy_write policy_delete token_read token_create : PermissionKey
  token_rotate token_revoke : PermissionKey

-- `PERMISSION_KEYS`
abbrev pub permission_keys : List PermissionKey
permission_keys =
    system_admin ∷ org_read ∷ org_update ∷ org_delete ∷ org_member_read ∷ org_member_manage
    ∷ user_read ∷ user_create ∷ user_update ∷ user_deactivate ∷ user_reset_password ∷ group_read
    ∷ group_create ∷ group_update ∷ group_delete ∷ group_member_manage ∷ group_permission_manage
    ∷ permission_read ∷ permission_grant ∷ repository_read ∷ repository_create ∷ repository_update
    ∷ repository_write ∷ repository_delete ∷ repository_permission_manage ∷ package_read
    ∷ package_write ∷ package_delete ∷ artifact_read ∷ artifact_write ∷ artifact_delete
    ∷ policy_read ∷ policy_write ∷ policy_delete ∷ token_read ∷ token_create ∷ token_rotate
    ∷ token_revoke ∷ []

-- The key as the code spells it.
unfoldable pub key_text : PermissionKey → Text
key_text system_admin = codes "system.admin"
key_text org_read = codes "org.read"
key_text org_update = codes "org.update"
key_text org_delete = codes "org.delete"
key_text org_member_read = codes "org.member.read"
key_text org_member_manage = codes "org.member.manage"
key_text user_read = codes "user.read"
key_text user_create = codes "user.create"
key_text user_update = codes "user.update"
key_text user_deactivate = codes "user.deactivate"
key_text user_reset_password = codes "user.reset_password"
key_text group_read = codes "group.read"
key_text group_create = codes "group.create"
key_text group_update = codes "group.update"
key_text group_delete = codes "group.delete"
key_text group_member_manage = codes "group.member.manage"
key_text group_permission_manage = codes "group.permission.manage"
key_text permission_read = codes "permission.read"
key_text permission_grant = codes "permission.grant"
key_text repository_read = codes "repository.read"
key_text repository_create = codes "repository.create"
key_text repository_update = codes "repository.update"
key_text repository_write = codes "repository.write"
key_text repository_delete = codes "repository.delete"
key_text repository_permission_manage = codes "repository.permission.manage"
key_text package_read = codes "package.read"
key_text package_write = codes "package.write"
key_text package_delete = codes "package.delete"
key_text artifact_read = codes "artifact.read"
key_text artifact_write = codes "artifact.write"
key_text artifact_delete = codes "artifact.delete"
key_text policy_read = codes "policy.read"
key_text policy_write = codes "policy.write"
key_text policy_delete = codes "policy.delete"
key_text token_read = codes "token.read"
key_text token_create = codes "token.create"
key_text token_rotate = codes "token.rotate"
key_text token_revoke = codes "token.revoke"

-- The position in `PERMISSION_KEYS`, by which keys are compared.
abbrev key_index : PermissionKey → ℕ
key_index system_admin = 0
key_index org_read = 1
key_index org_update = 2
key_index org_delete = 3
key_index org_member_read = 4
key_index org_member_manage = 5
key_index user_read = 6
key_index user_create = 7
key_index user_update = 8
key_index user_deactivate = 9
key_index user_reset_password = 10
key_index group_read = 11
key_index group_create = 12
key_index group_update = 13
key_index group_delete = 14
key_index group_member_manage = 15
key_index group_permission_manage = 16
key_index permission_read = 17
key_index permission_grant = 18
key_index repository_read = 19
key_index repository_create = 20
key_index repository_update = 21
key_index repository_write = 22
key_index repository_delete = 23
key_index repository_permission_manage = 24
key_index package_read = 25
key_index package_write = 26
key_index package_delete = 27
key_index artifact_read = 28
key_index artifact_write = 29
key_index artifact_delete = 30
key_index policy_read = 31
key_index policy_write = 32
key_index policy_delete = 33
key_index token_read = 34
key_index token_create = 35
key_index token_rotate = 36
key_index token_revoke = 37

-- The key at a position of the list.
key_at : List PermissionKey → ℕ → Option PermissionKey
key_at [] i = none
key_at (k ∷ ks) zero = some k
key_at (k ∷ ks) (suc i) = key_at ks i

key_at-key_index : (k : PermissionKey) → key_at permission_keys (key_index k) ≡ some k
unfolding key_at
key_at-key_index system_admin = refl
key_at-key_index _ = refl

abbrev pub key_beq : PermissionKey → PermissionKey → Bool
key_beq a b = nat_beq (key_index a) (key_index b)

pub key_beq_iff : (a b : PermissionKey) → (key_beq a b ≡ true) ↔ (a ≡ b)
key_beq_iff a b = (
  λ h. same a b ((nat_beq_iff (key_index a) (key_index b)).0 h),
  λ e. (nat_beq_iff (key_index a) (key_index b)).1 (ap key_index e),
)
  where
    same : (x y : PermissionKey) → key_index x ≡ key_index y → x ≡ y
    same x y h = cc (key_at-key_index x, key_at-key_index y, ap (key_at permission_keys) h)

instance abbrev pub key_eq : Comparable PermissionKey
key_eq = record { equals = key_beq; equals_iff = key_beq_iff }

all_at :
    (p : PermissionKey → Bool) (ks : List PermissionKey) (i : ℕ) {k : PermissionKey}
    → all p ks ≡ true
    → key_at ks i ≡ some k
    → p k ≡ true
unfolding key_at
all_at p [] i h e = cc
all_at p (x ∷ ks) zero h e = ground arith
all_at p (x ∷ ks) (suc i) {k} h e = all_at p ks i {k = k} (ground arith) e

-- What a run over all keys finds holds of each key.
pub all_keys_sound :
    (p : PermissionKey → Bool) → all p permission_keys ≡ true → (k : PermissionKey) → p k ≡ true
all_keys_sound p h k = all_at p permission_keys (key_index k) h (key_at-key_index k)
