-- ===== src/Tests/AuthTests.antt =====
-- Tests of packages/auth/src: an organisation, its grants, a token and requests.
use hootifactory.Prelude.{
  ℕ, ◌+◌, min, length, arith, inr, after_char, ◌≡◌, refl, ◌↔◌, true, [], ◌∷◌, none, some, codes,
  is_some, Any,
}
use hootifactory.Auth.Permission.{
  write, pkg, package_read, package_write, repository_write, artifact_write,
}
use hootifactory.Auth.Permission.Implication.{
  permission_implies, implies_from, Implies, permission_implies_iff, permission_implies_trans,
}
use hootifactory.Auth.Permission.Required.{permission_for_action}
use hootifactory.Auth.Scope.{
  pattern_matches, TokenScopeRepository, mount_relative, scope_may_target_repo,
}
use hootifactory.Auth.Scope.Targets.{scope_may_target_repo_lem}
use hootifactory.Auth.Scope.Matching.{Matches, below, pattern_matches_iff}
use hootifactory.Auth.Principal.{user, api_token, ResourceRef, private, allow, PermissionGrantRow}
use hootifactory.Auth.Grants.{permission_grants_allow}
use hootifactory.Auth.Grants.Decides.{Allows, permission_grants_allow_iff}
use hootifactory.Auth.Can.{CanInput, required_permission, can}
use hootifactory.Auth.Can.Sound.{Permitted, can_iff}
use hootifactory.Auth.Throttle.{Buckets, consume_bucket, retry_after_seconds}
use hootifactory.Auth.Throttle.Window.{
  passed_attempts, passed_attempts_lem, passes, retry_after_suffices,
}
use hootifactory.Auth.Authorize.{AuthDb, authorize}
use hootifactory.Auth.Authorize.Owner.{TokenMay, authorize_token_iff}

abbrev team_package : ResourceRef
team_package = record {
  type = pkg;
  org_id = some (codes "acme");
  repository_id = some (codes "r1");
  repository_name = some (codes "npm-local");
  package_name = some (codes "left-pad");
  artifact_ref = none;
  policy = none;
  token_target = none;
  token_id = none;
  visibility = some private;
}

abbrev writer_grant : PermissionGrantRow
writer_grant = record {
  permission = package_write;
  user_id = some (codes "alice");
  group_id = none;
  subject_token_id = none;
  org_id = some (codes "acme");
  repository_id = none;
  repository_pattern = some (codes "npm-*");
  package_pattern = none;
  artifact_pattern = none;
  policy = none;
  token_target = none;
  target_token_id = none;
}

abbrev token_grant_row : PermissionGrantRow
token_grant_row = record writer_grant { user_id = none; subject_token_id = some (codes "t1") }

abbrev write_input : CanInput
write_input = record {
  principal = user (codes "alice") (codes "Alice");
  action = some write;
  permission = none;
  resource = team_package;
  grants = writer_grant ∷ [];
}

abbrev small_db : AuthDb
small_db = record {
  permission_grants = writer_grant ∷ token_grant_row ∷ [];
  group_memberships = [];
}

can_iff_example :
    (can write_input ≡ some allow)
    ↔ Permitted
        (some write)
        (writer_grant ∷ [])
        package_write
        team_package
        (user (codes "alice") (codes "Alice"))
unfolding required_permission permission_for_action
can_iff_example = can_iff write_input package_write refl

authorize_token_iff_example :
    (authorize small_db
        (api_token (codes "t1") (codes "acme") (some (codes "alice")) (some (codes "Alice")))
        write
        team_package
      ≡ allow)
    ↔ TokenMay small_db
        (permission_for_action write pkg)
        team_package
        (codes "t1")
        (codes "acme")
        (some (codes "alice"))
authorize_token_iff_example =
    authorize_token_iff small_db (codes "t1") (codes "acme") (some (codes "alice"))
      (some (codes "Alice")) write team_package

permission_grants_allow_iff_example :
    (permission_grants_allow (writer_grant ∷ []) package_read team_package ≡ true)
    ↔ Any (Allows package_read team_package) (writer_grant ∷ [])
permission_grants_allow_iff_example =
    permission_grants_allow_iff (writer_grant ∷ []) package_read team_package

permission_implies_iff_example :
    (is_some (implies_from 39 artifact_write repository_write []) ≡ true)
    × ((permission_implies repository_write artifact_write ≡ true)
        ↔ Implies repository_write artifact_write)
permission_implies_iff_example = permission_implies_iff repository_write artifact_write

permission_implies_trans_example : permission_implies repository_write package_read ≡ true
unfolding permission_implies
permission_implies_trans_example =
    permission_implies_trans repository_write package_write package_read refl refl

pattern_matches_iff_example :
    (pattern_matches (codes "team/*") (codes "team/app") ≡ true)
    ↔ Matches (codes "team/*") (codes "team/app")
pattern_matches_iff_example = pattern_matches_iff (codes "team/*") (codes "team/app")

abbrev hash_sum : ℕ → ℕ → ℕ
hash_sum scope key = scope + key

abbrev no_buckets : Buckets
no_buckets hash = none

passed_attempts_lem_example :
    passed_attempts hash_sum 1 2 60 2 (100 ∷ 200 ∷ 300 ∷ []) no_buckets
    ≡ min (length {A = ℕ} (100 ∷ 200 ∷ 300 ∷ [])) 2
passed_attempts_lem_example =
    passed_attempts_lem hash_sum 1 2 60 2 100 (200 ∷ 300 ∷ []) no_buckets refl
      (omega arith, (omega arith, tt))

abbrev full_buckets : Buckets
full_buckets hash = some (record { count = 2; reset_at = 60100 })

retry_after_suffices_example :
    passes
      (consume_bucket hash_sum 1 2 60 2 60200
        (consume_bucket hash_sum 1 2 60 2 200 full_buckets).1).0
    ≡ 1
unfolding consume_bucket retry_after_seconds
retry_after_suffices_example =
    retry_after_suffices hash_sum 1 2 60 2 200 60200 60 (record { count = 3; reset_at = 60100 })
      full_buckets (omega arith) refl (omega arith)

abbrev docker : TokenScopeRepository
docker = record { name = codes "docker"; mount_path = codes "v2/acme" }

scope_may_target_repo_lem_example : scope_may_target_repo (codes "acme/*") docker ≡ true
unfolding mount_relative after_char
scope_may_target_repo_lem_example =
    scope_may_target_repo_lem (codes "acme/*") docker (codes "acme") (codes "acme/app") refl
      (inr (codes "app", refl))
      ((pattern_matches_iff (codes "acme/*") (codes "acme/app")).1
        (below (codes "acme") (codes "app") refl refl))
