-- ===== src/Auth/Scope.antt =====
-- packages/auth/src/scope.ts: repository scope patterns.
pub mod Matching
pub mod Targets
use hootifactory.Prelude.{
  ◌≡◌, Bool, true, false, ◌&&◌, ◌||◌, [], ◌∷◌, ◌++◌, Option, none, some, ◌==◌, if◌then◌else◌, Text,
  codes, text_eq, strip_suffix, strip_prefix, starts_with, after_char,
}

abbrev pub star : Text
star = codes "*"

abbrev pub slash_star : Text
slash_star = codes "/*"

abbrev pub slash : Text
slash = codes "/"

unfoldable pub pattern_matches : Text → Text → Bool
pattern_matches pattern name =
    if pattern == star then true else elim (strip_suffix slash_star pattern) [
      | some prefix ↦ name == prefix || starts_with (prefix ++ slash) name
      | none ↦ elim (strip_suffix star pattern) [
        | some prefix ↦ starts_with prefix name
        | none ↦ pattern == name
      ]
    ]

-- The fields of a repository that a scope names.
pub record TokenScopeRepository : Type 0 where
  pub name : Text
  pub mount_path : Text

-- The mount path behind its first segment; an empty rest is falsy and becomes `none`.
unfoldable pub mount_relative : Text → Option Text
mount_relative path = elim (after_char b'/' path) [
  | none ↦ none
  | some [] ↦ none
  | some (c ∷ rest) ↦ some (c ∷ rest)
]

unfoldable pub scope_may_target_repo : Text → TokenScopeRepository → Bool
unfolding mount_relative
scope_may_target_repo pattern repo =
    if pattern_matches pattern repo.name then true else elim (mount_relative repo.mount_path) [
      | none ↦ false
      | some relative ↦
          if pattern_matches pattern relative || starts_with (relative ++ slash) pattern
          then true
          else elim (strip_suffix star pattern) [
            | none ↦ false
            | some prefix ↦ starts_with (relative ++ slash) prefix || starts_with prefix relative
          ]
    ]
