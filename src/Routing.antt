-- ===== src/Routing.antt =====
-- From the path of a request to a repository and a route: `resolveRepository` of
-- packages/registry-platform/src/routing/resolve-repository.ts, with `trimChar` of
-- packages/core/src/strings.ts. A path is the list of its character codes.
pub mod Paths
pub mod Longest
pub mod Match
pub mod Members
use hootifactory.Prelude.{
  ℕ, zero, suc, Bool, true, false, ◌&&◌, List, [], ◌∷◌, ◌++◌, Option, none, some, ◌==◌, nat_eq,
  text_eq, Text, if◌then◌else◌, ltb, length, keep, contains,
}

-- `"/"`
abbrev pub slash : ℕ
slash = 47

unfoldable pub trim_start : ℕ → Text → Text
trim_start ch [] = []
trim_start ch (c ∷ s) = let rest = trim_start ch s in if c == ch then rest else c ∷ s

unfoldable pub trim_end : ℕ → Text → Text
trim_end ch [] = []
trim_end ch (c ∷ s) = elim (trim_end ch s) [
  | [] ↦ if c == ch then [] else c ∷ []
  | d ∷ t ↦ c ∷ d ∷ t
]

-- `trimChar`
unfoldable pub trim_char : Text → ℕ → Text
trim_char value ch = trim_end ch (trim_start ch value)

-- A character before the first segment.
abbrev pub cons_first : ℕ → List Text → List Text
cons_first c [] = (c ∷ []) ∷ []
cons_first c (x ∷ xs) = (c ∷ x) ∷ xs

-- `norm.split("/")`
unfoldable pub split_path : Text → List Text
split_path [] = [] ∷ []
split_path (c ∷ s) = let rest = split_path s in if c == slash then [] ∷ rest else cons_first c rest

-- `segments.join("/")`
unfoldable pub join_path : List Text → Text
join_path [] = []
join_path (x ∷ []) = x
join_path (x ∷ y ∷ xs) = x ++ (slash ∷ join_path (y ∷ xs))

-- `segments.slice(0, i)`
abbrev pub take : ℕ → List Text → List Text
take zero xs = []
take (suc n) [] = []
take (suc n) (x ∷ xs) = x ∷ take n xs

-- `norm.slice(n)`
abbrev pub drop : ℕ → Text → Text
drop zero s = s
drop (suc n) [] = []
drop (suc n) (c ∷ s) = drop n s

-- The loop that fills `prefixes`, from `i` segments down to one.
unfoldable pub path_prefixes : ℕ → List Text → List Text
path_prefixes zero segments = []
path_prefixes (suc i) segments = join_path (take (suc i) segments) ∷ path_prefixes i segments

pub record RepoRow : Type 0 where
  pub repo_id : ℕ
  pub mount_path : Text

-- The loop over the rows: the first of the longest mount paths.
unfoldable pub longest_mount : Option RepoRow → List RepoRow → Option RepoRow
longest_mount best [] = best
longest_mount none (row ∷ rows) = longest_mount (some row) rows
longest_mount (some best) (row ∷ rows) =
    longest_mount
      (if ltb (length best.mount_path) (length row.mount_path) then some row else some best) rows

-- What is left of the path behind the mount path, with one slash before it.
abbrev pub rest_of : Text → RepoRow → Text
rest_of norm best = slash ∷ trim_start slash (drop (length best.mount_path) norm)

-- The query and the loop, for a path that is not empty. The rows of `repositories` are given; the
-- `where` clause keeps those whose mount path is a prefix.
unfoldable pub resolve_norm : List RepoRow → Text → Option (RepoRow × Text)
resolve_norm repositories norm =
    let segments = split_path norm in
    let prefixes = path_prefixes (length segments) segments in
    let rows = keep (λ row. contains prefixes row.mount_path) repositories in
    elim (longest_mount none rows) [ none ↦ none | some best ↦ some (best, rest_of norm best) ]

unfoldable pub resolve_repository : List RepoRow → Text → Option (RepoRow × Text)
resolve_repository repositories pathname =
    let norm = trim_char pathname slash in
    if norm == [] then none else resolve_norm repositories norm
