-- ===== src/Tests/RoutingTests.antt =====
-- Tests of the routing of packages/registry-platform/src and packages/registry/src/routing.
use hootifactory.Prelude.{
  ℕ, ◌≤◌, ◌≡◌, ◌≢◌, refl, ◌⊎◌, ◌↔◌, true, false, List, [], ◌∷◌, ◌++◌, Option, none, some, Text,
  codes, text_beq, strip_suffix, strip_suffix-append, text_eq, ◌==◌, nat_eq, if◌then◌else◌, length,
}
use hootifactory.Routing.{
  slash, trim_char, RepoRow, resolve_repository, trim_end, trim_start, resolve_norm, longest_mount,
  path_prefixes, split_path, join_path,
}
use hootifactory.Routing.Paths.{Below}
use hootifactory.Routing.Longest.{IsRow, RestOf, longest_mount_found, unrouted_iff}
use hootifactory.Routing.Match.{
  get, head, RouteEntry, CompiledRoute, RouteMatch, compile_routes, compile_route, compile_segments,
  compile_segment, escape_regex, bind_params, safe_decode, match_route, try_route, matched,
  resolve_route_match,
}

abbrev org_repo : RepoRow
org_repo = record { repo_id = 1; mount_path = codes "npm/a" }

abbrev nested_repo : RepoRow
nested_repo = record { repo_id = 2; mount_path = codes "npm/a/b" }

abbrev two_repos : List RepoRow
two_repos = org_repo ∷ nested_repo ∷ []

nested_found :
    resolve_repository two_repos (codes "/npm/a/b//pkg/") ≡ some (nested_repo, codes "/pkg")
unfolding resolve_repository text_beq trim_char trim_end trim_start resolve_norm longest_mount
    path_prefixes split_path join_path
nested_found = refl

longest_mount_found_example :
    IsRow nested_repo two_repos
    × RestOf (trim_char (codes "/npm/a/b//pkg/") slash) nested_repo.mount_path (codes "/pkg")
    × ((row : RepoRow)
        → IsRow row two_repos
        → Below row.mount_path (trim_char (codes "/npm/a/b//pkg/") slash)
        → length row.mount_path ≤ length nested_repo.mount_path)
longest_mount_found_example =
    longest_mount_found two_repos (codes "/npm/a/b//pkg/") nested_repo (codes "/pkg") nested_found

unended : strip_suffix (slash ∷ []) (codes "npm/ab") ≡ none
unfolding strip_suffix text_beq
unended = refl

no_slash_first : (tail : Text) → codes "npm/ab" ≢ slash ∷ tail
no_slash_first tail h = cc h

no_slash_last : (first : Text) → codes "npm/ab" ≢ first ++ (slash ∷ [])
no_slash_last first h =
    let ends : strip_suffix (slash ∷ []) (first ++ (slash ∷ [])) ≡ some first =
      strip_suffix-append (slash ∷ []) first in
    let f : none ≡ some first = cc (h, ends, unended) in cc f

unrouted_iff_example : (resolve_repository two_repos (codes "//npm/ab/") ≡ none) ↔ (
    (codes "npm/ab" ≡ [])
    ⊎ ((row : RepoRow) → IsRow row two_repos → Below row.mount_path (codes "npm/ab") → ⊥))
unrouted_iff_example =
    unrouted_iff two_repos (codes "//") (codes "npm/ab") (codes "/") (refl, (refl, tt)) (refl, tt)
      no_slash_first no_slash_last

abbrev entry : RouteEntry
entry = record { method = get; pattern = codes "/:name"; handler_id = codes "show" }

abbrev routes : List CompiledRoute
routes = compile_routes (entry ∷ [])

compiled :
    routes
    ≡ record {
      entry = entry;
      regex = codes "^/([^/]+)$";
      params = record { name = codes "name"; greedy = false } ∷ [];
    }
      ∷ []
unfolding compile_routes compile_route compile_segments compile_segment split_path strip_suffix
    escape_regex join_path text_beq
compiled = refl

-- Paths of one segment of letters.
abbrev exec_one : Text → Text → Option (List Text)
exec_one regex path = if path == codes "/lodash" then some (codes "lodash" ∷ []) else none

abbrev decode_none : Text → Option Text
decode_none s = none

abbrev shown : RouteMatch
shown = record {
  entry = entry;
  params = (codes "name", codes "lodash") ∷ [];
  path = codes "/lodash";
}

head_falls_back :
    resolve_route_match exec_one decode_none routes head (codes "/lodash") true ≡ matched shown true
unfolding resolve_route_match match_route try_route bind_params safe_decode compile_routes
    compile_route compile_segments compile_segment split_path strip_suffix escape_regex join_path
    text_beq
head_falls_back = refl

abbrev same_org : ℕ → Option ℕ
same_org repo = some 1
