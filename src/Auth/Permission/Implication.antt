-- ===== src/Auth/Permission/Implication.antt =====
-- `permissionImplies` of packages/auth/src/permissions.ts.
use hootifactory.Prelude.{
  ℕ, zero, suc, ◌≡◌, refl, sym, subst, ◌↔◌, Bool, true, false, ◌&&◌, List, [], ◌∷◌, Option, none,
  some, arith, not, ◌==◌, if◌then◌else◌, contains, contains_here, contains_there, all, ◌||◌,
  is_some, Option-cases, Bool-cases, inl, inr,
}
use hootifactory.Auth.Permission.{
  PermissionKey, permission_keys, key_eq, key_beq_iff, all_keys_sound,
}
use hootifactory.Auth.Permission.{
  system_admin, org_member_read, org_member_manage, user_read, user_create, user_update,
  user_deactivate, user_reset_password, group_read, group_create, group_update, group_delete,
  group_member_manage, permission_read, permission_grant, repository_read, repository_create,
  repository_update, repository_write, repository_delete, repository_permission_manage,
  package_read, package_write, package_delete, artifact_read, artifact_write, artifact_delete,
  policy_read, policy_write, policy_delete, token_read, token_rotate, token_revoke,
}

unfoldable pub direct_implications : PermissionKey → List PermissionKey
direct_implications org_member_manage = org_member_read ∷ []
direct_implications group_create = group_read ∷ []
direct_implications group_update = group_read ∷ []
direct_implications group_delete = group_read ∷ []
direct_implications group_member_manage = group_read ∷ []
direct_implications permission_grant = permission_read ∷ []
direct_implications user_create = user_read ∷ []
direct_implications user_update = user_read ∷ []
direct_implications user_deactivate = user_read ∷ []
direct_implications user_reset_password = user_read ∷ []
direct_implications repository_create = repository_read ∷ []
direct_implications repository_update = repository_read ∷ []
direct_implications repository_write = repository_read ∷ package_write ∷ artifact_write ∷ []
direct_implications repository_delete = repository_read ∷ package_delete ∷ artifact_delete ∷ []
direct_implications repository_permission_manage = repository_read ∷ []
direct_implications repository_read = package_read ∷ artifact_read ∷ []
direct_implications package_write = package_read ∷ []
direct_implications package_delete = package_read ∷ []
direct_implications artifact_write = artifact_read ∷ []
direct_implications artifact_delete = artifact_read ∷ []
direct_implications policy_write = policy_read ∷ []
direct_implications policy_delete = policy_read ∷ []
direct_implications token_rotate = token_read ∷ []
direct_implications token_revoke = token_read ∷ []
direct_implications _ = []

-- The loop over the implied keys; `seen` is the set that the recursive calls share and grow.
visit_all :
    (PermissionKey → List PermissionKey → Option (Bool × List PermissionKey))
    → List PermissionKey
    → List PermissionKey
    → Option (Bool × List PermissionKey)
visit_all visit [] seen = some (false, seen)
visit_all visit (k ∷ ks) seen = elim (visit k seen) [
  | none ↦ none
  | some (found, seen') ↦ if found then some (true, seen') else visit_all visit ks seen'
]

-- `permissionImplies` with its `seen` set passed along; `none` means that the fuel ran out.
pub implies_from :
    ℕ → PermissionKey → PermissionKey → List PermissionKey → Option (Bool × List PermissionKey)
implies_from zero required granted seen = none
implies_from (suc fuel) required granted seen =
    if granted == system_admin
    then some (true, seen)
    else if granted == required
    then some (true, seen)
    else if contains seen granted
    then some (false, seen)
    else visit_all (implies_from fuel required) (direct_implications granted) (granted ∷ seen)

abbrev found_of : Option (Bool × List PermissionKey) → Bool
found_of none = false
found_of (some (found, _)) = found

-- Each visit adds a key to `seen`, so the number of keys bounds the depth.
unfoldable pub permission_implies : PermissionKey → PermissionKey → Bool
unfolding implies_from visit_all direct_implications
permission_implies granted required = found_of (implies_from 39 required granted [])

-- The intended meaning: the least preorder that holds the direct implications, with
-- `system.admin` above all.
pub data Implies : PermissionKey → PermissionKey → Type 0 where
  top : {g r : PermissionKey} → g ≡ system_admin → Implies g r
  same : {g r : PermissionKey} → g ≡ r → Implies g r
  via :
      {g r : PermissionKey} (h : PermissionKey)
      → contains (direct_implications g) h ≡ true
      → Implies h r
      → Implies g r

-- A visit that answers true has found a derivation.
abbrev Sound :
    (PermissionKey → List PermissionKey → Option (Bool × List PermissionKey))
    → PermissionKey
    → Type 0
Sound visit r =
    (k : PermissionKey) (seen rest : List PermissionKey)
    → visit k seen ≡ some (true, rest)
    → Implies k r

visit_all-Sound :
    (visit : PermissionKey → List PermissionKey → Option (Bool × List PermissionKey))
    (r : PermissionKey)
    → Sound visit r
    → (ks seen rest : List PermissionKey) → visit_all visit ks seen ≡ some (true, rest)
    → (h : PermissionKey) × (contains ks h ≡ true) × Implies h r
unfolding visit_all
visit_all-Sound visit r sound [] seen rest e = cc
visit_all-Sound visit r sound (k ∷ ks) seen rest e = elim (Option-cases (visit k seen)) [
  | inl stuck ↦ absurd (cc (rw (stuck, visit_all) at e))
  | inr ((found, seen'), visited) ↦ elim (Bool-cases found) [
    | inl yes' ↦ (k, contains_here k ks, sound k seen seen' (ground arith))
    | inr no' ↦
        let (h, listed, derived) = visit_all-Sound visit r sound ks seen' rest (ground arith) in
        (h, contains_there h k ks listed, derived)
  ]
]

implies_from-Sound : (fuel : ℕ) (r : PermissionKey) → Sound (implies_from fuel r) r
unfolding implies_from
implies_from-Sound zero r k seen rest e = cc
implies_from-Sound (suc fuel) r k seen rest e = elim (Bool-cases (k == system_admin)) [
  | inl is_top ↦ top ((key_beq_iff k system_admin).0 is_top)
  | inr below ↦ elim (Bool-cases (k == r)) [
    | inl equal ↦ same ((key_beq_iff k r).0 equal)
    | inr other ↦
        let (h, listed, derived) =
          visit_all-Sound (implies_from fuel r) r (implies_from-Sound fuel r)
            (direct_implications k) (k ∷ seen) rest (ground arith) in
        via h listed derived
  ]
]

-- Over all pairs of keys: the fuel suffices, `system.admin` is on top, and every key implies
-- itself.
pair_ok : PermissionKey → PermissionKey → Bool
pair_ok g r =
    is_some (implies_from 39 r g []) && permission_implies system_admin r && permission_implies r r

pair_table : all (λ g. all (pair_ok g) permission_keys) permission_keys ≡ true
unfolding pair_ok permission_implies
pair_table = refl

pair_lem : (g r : PermissionKey) → pair_ok g r ≡ true
pair_lem g =
    all_keys_sound (pair_ok g) (all_keys_sound (λ g. all (pair_ok g) permission_keys) pair_table g)

-- Over all triples: what a direct implication of a key implies, the key implies.
step_ok : PermissionKey → PermissionKey → PermissionKey → Bool
step_ok g h r =
    not (contains (direct_implications g) h && permission_implies h r) || permission_implies g r

step_table :
    all (λ g. all (λ h. all (step_ok g h) permission_keys) permission_keys) permission_keys ≡ true
unfolding step_ok permission_implies
step_table = refl

step_lem : (g h r : PermissionKey) → step_ok g h r ≡ true
step_lem g h = all_keys_sound (step_ok g h) (
    all_keys_sound (λ h. all (step_ok g h) permission_keys)
      (all_keys_sound (λ g. all (λ h. all (step_ok g h) permission_keys) permission_keys) step_table
        g)
      h)

found_sound :
    (o : Option (Bool × List PermissionKey))
    → found_of o ≡ true
    → (rest : List PermissionKey) × (o ≡ some (true, rest))
found_sound none h = cc
found_sound (some (found, rest)) h = (rest, ground arith)

permission_implies_sound : (g r : PermissionKey) → permission_implies g r ≡ true → Implies g r
unfolding permission_implies
permission_implies_sound g r h =
    let (rest, e) = found_sound (implies_from 39 r g []) h in implies_from-Sound 39 r g [] rest e

permission_implies_complete : {g r : PermissionKey} → Implies g r → permission_implies g r ≡ true
unfolding pair_ok step_ok
permission_implies_complete {g} {r} (top e) = ground (arith, pair_lem g r)
permission_implies_complete {g} {r} (same e) = ground (arith, pair_lem g r)
permission_implies_complete {g} {r} (via h listed rest) =
    ground (arith, permission_implies_complete rest, step_lem g h r)

total_lem : (g r : PermissionKey) → is_some (implies_from 39 r g []) ≡ true
unfolding pair_ok
total_lem g r = ground (arith, pair_lem g r)

-- `permissionImplies` ends on every pair of keys within the fuel given, and answers true exactly
-- where the granted key is `system.admin` or reaches the required one along the direct
-- implications.
pub permission_implies_iff :
    (g r : PermissionKey)
    → (is_some (implies_from 39 r g []) ≡ true) × ((permission_implies g r ≡ true) ↔ Implies g r)
permission_implies_iff g r =
    (total_lem g r, (permission_implies_sound g r, permission_implies_complete))

Implies-trans : {a b c : PermissionKey} → Implies a b → Implies b c → Implies a c
Implies-trans (top e) k = top e
Implies-trans {c = c} (same e) k = subst (λ x. Implies x c) (sym e) k
Implies-trans (via h listed rest) k = via h listed (Implies-trans rest k)

-- Implication of permissions is transitive: what a granted permission implies may be granted on
-- in its place and implies no more.
pub permission_implies_trans :
    (a b c : PermissionKey)
    → permission_implies a b ≡ true
    → permission_implies b c ≡ true
    → permission_implies a c ≡ true
permission_implies_trans a b c h k =
    permission_implies_complete
      (Implies-trans (permission_implies_sound a b h) (permission_implies_sound b c k))
