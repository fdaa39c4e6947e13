-- ===== src/Auth/Scope/Targets.antt =====
-- `scopeMayTargetRepo` of packages/auth/src/scope.ts against the images under a repository's mount.
use hootifactory.Prelude.{
  ◌≡◌, refl, sym, ◌∙◌, ◌⊎◌, inl, inr, true, [], ◌∷◌, ◌++◌, some, Bool-cases, Text, text_eq,
  starts_with, starts_with-append,
}
use mathlib.Core.List.{append_assoc, append-nil}
use hootifactory.Auth.Scope.{
  star, slash_star, slash, pattern_matches, TokenScopeRepository, mount_relative,
  scope_may_target_repo,
}
use hootifactory.Auth.Scope.Matching.{
  Matches, everything, root, below, glob, exact, pattern_matches_iff,
}

-- A text with two beginnings, one of which ends in a slash.
two_beginnings :
    (p r rel x : Text)
    → p ++ r ≡ rel ++ (slash ++ x)
    → ((t : Text) × (rel ≡ p ++ t) × (r ≡ t ++ (slash ++ x)))
      ⊎ ((t : Text) × (p ≡ (rel ++ slash) ++ t))
two_beginnings [] r rel x e = inl (rel, refl, e)
two_beginnings (c ∷ p) r [] x e = inr (p, cc)
two_beginnings (c ∷ p) r (d ∷ rel) x e = elim (two_beginnings p r rel x cc) [
  | inl (t, here, rest) ↦ inl (t, cc, rest)
  | inr (t, here) ↦ inr (t, cc)
]

module _ (pattern rel : Text) where
  -- The two tests of the code that are enough.
  abbrev Aimed : Type 0
  Aimed = (pattern_matches pattern rel ≡ true) ⊎ (starts_with (rel ++ slash) pattern ≡ true)

  starts : (t u : Text) → pattern ≡ ((rel ++ slash) ++ t) ++ u → Aimed
  starts t u e =
      inr (rw (e, append_assoc (rel ++ slash) t u) (starts_with-append (rel ++ slash) (t ++ u)))

  matched : Matches pattern rel → Aimed
  matched m = inl ((pattern_matches_iff pattern rel).1 m)

  below_aimed :
      (p r x : Text) → pattern ≡ p ++ slash_star → p ++ (slash ++ r) ≡ rel ++ (slash ++ x) → Aimed
  below_aimed p r x e same = elim (two_beginnings p (slash ++ r) rel x same) [
    | inr (t, longer) ↦ starts t slash_star (rw longer at e)
    | inl ([], here, rest) ↦ matched (root (rw (here, append-nil p) e))
    | inl (c ∷ t, here, rest) ↦
        let h : c ≡ b'/' = cc in
        let joined : p ++ (c ∷ t) ≡ (p ++ slash) ++ t = rw h (sym (append_assoc p slash t)) in
        matched (below p t e (here ∙ joined))
  ]

  aimed : (n x : Text) → n ≡ (rel ++ slash) ++ x → Matches pattern n → Aimed
  aimed n x under (everything e) = matched (everything e)
  aimed n x under (root e) = starts x slash_star (rw under at e)
  aimed n x under (below p r e named) =
      below_aimed p r x e
        (sym (append_assoc p slash r) ∙ (sym named ∙ (under ∙ append_assoc rel slash x)))
  aimed n x under (glob p r e plain named) =
      elim (two_beginnings p r rel x (sym named ∙ (under ∙ append_assoc rel slash x))) [
        | inr (t, longer) ↦ starts t star (rw longer at e)
        | inl (t, here, rest) ↦ matched (glob p t e plain here)
      ]
  aimed n x under (exact plain e) = inr (rw (e, under) (starts_with-append (rel ++ slash) x))

aimed_target :
    (pattern : Text) (repo : TokenScopeRepository) (rel : Text)
    → mount_relative repo.mount_path ≡ some rel
    → Aimed pattern rel
    → scope_may_target_repo pattern repo ≡ true
unfolding scope_may_target_repo
aimed_target pattern repo rel mounted a = elim (Bool-cases (pattern_matches pattern repo.name)) [
  | inl named ↦ rw (named, scope_may_target_repo) refl
  | inr other ↦ elim a [
    | inl hit ↦ rw (other, scope_may_target_repo, mounted, hit) refl
    | inr start ↦ elim (Bool-cases (pattern_matches pattern rel)) [
      | inl hit ↦ rw (other, scope_may_target_repo, mounted, hit) refl
      | inr miss ↦ rw (other, scope_may_target_repo, mounted, miss, start) refl
    ]
  ]
]

-- A token scope is recognised as one that may target a repository whenever it matches the
-- repository's mount-relative path or any image path under it.
pub scope_may_target_repo_lem :
    (pattern : Text) (repo : TokenScopeRepository) (rel n : Text)
    → mount_relative repo.mount_path ≡ some rel
    → (n ≡ rel) ⊎ ((x : Text) × (n ≡ (rel ++ slash) ++ x))
    → pattern_matches pattern n ≡ true
    → scope_may_target_repo pattern repo ≡ true
scope_may_target_repo_lem pattern repo rel n mounted under hit =
    aimed_target pattern repo rel mounted (elim under [
      | inl same ↦ inl (rw (← same) hit)
      | inr (x, below') ↦ aimed pattern rel n x below' ((pattern_matches_iff pattern n).0 hit)
    ])
