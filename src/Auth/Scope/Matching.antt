-- ===== src/Auth/Scope/Matching.antt =====
-- What a scope pattern matches, as a relation.
use hootifactory.Prelude.{
  ◌≡◌, ◌↔◌, ◌≢◌, inl, inr, true, ◌||◌, ◌++◌, none, some, arith, ◌==◌, Bool-cases, Option-cases,
  Text, text_beq, text_beq_iff, strip_suffix, starts_with, starts_with_sound, starts_with-append,
  strip_suffix-none, strip_suffix_sound, strip_suffix-append, ◌∙◌, sym, text_eq,
}
use mathlib.Core.List.{append_assoc}
use hootifactory.Auth.Scope.{star, slash_star, slash, pattern_matches}

pub data Matches (pattern name : Text) : Type 0 where
  everything : pattern ≡ star → Matches pattern name
  root : pattern ≡ name ++ slash_star → Matches pattern name
  below : (p r : Text) → pattern ≡ p ++ slash_star → name ≡ (p ++ slash) ++ r → Matches pattern name
  glob :
      (p r : Text)
      → pattern ≡ p ++ star
      → ((q : Text) → pattern ≢ q ++ slash_star)
      → name ≡ p ++ r
      → Matches pattern name
  exact : ((q : Text) → pattern ≢ q ++ star) → pattern ≡ name → Matches pattern name

pattern_matches_sound :
    (pattern name : Text) → pattern_matches pattern name ≡ true → Matches pattern name
unfolding pattern_matches
pattern_matches_sound pattern name h = elim (Bool-cases (text_beq pattern star)) [
  | inl same ↦ everything ((text_beq_iff pattern star).0 same)
  | inr other ↦ elim (Option-cases (strip_suffix slash_star pattern)) [
    | inr (p, cut) ↦ elim (Bool-cases (text_beq name p)) [
      | inl at_root ↦
          root (cc (strip_suffix_sound slash_star pattern cut, (text_beq_iff name p).0 at_root))
      | inr inside ↦
          let (r, e) = starts_with_sound (p ++ slash) name (ground arith) in
          below p r (strip_suffix_sound slash_star pattern cut) e
    ]
    | inl uncut ↦ elim (Option-cases (strip_suffix star pattern)) [
      | inr (p, cut) ↦
          let (r, e) = starts_with_sound p name (ground arith) in
          glob p r (strip_suffix_sound star pattern cut)
            (strip_suffix-none slash_star pattern uncut) e
      | inl plain ↦
          exact (strip_suffix-none star pattern plain)
            ((text_beq_iff pattern name).0 (ground arith))
    ]
  ]
]

none_of_ne : (t s : Text) → ((q : Text) → s ≢ q ++ t) → strip_suffix t s ≡ none
none_of_ne t s h = elim (Option-cases (strip_suffix t s)) [
  | inl missing ↦ missing
  | inr (q, found) ↦ absurd (h q (strip_suffix_sound t s found))
]

-- The four ways to match, each as a run of the function.
module _ (pattern name : Text) where
  matches_everything : pattern ≡ star → pattern_matches pattern name ≡ true
  unfolding pattern_matches
  matches_everything e = ground (arith, text_beq_iff pattern star)

  matches_below :
      (p : Text)
      → strip_suffix slash_star pattern ≡ some p
      → (name == p || starts_with (p ++ slash) name) ≡ true
      → pattern_matches pattern name ≡ true
  unfolding pattern_matches
  matches_below p cut h = ground arith

  matches_glob :
      (p : Text)
      → strip_suffix slash_star pattern ≡ none
      → strip_suffix star pattern ≡ some p
      → starts_with p name ≡ true
      → pattern_matches pattern name ≡ true
  unfolding pattern_matches
  matches_glob p uncut cut h = ground arith

  matches_exact :
      strip_suffix slash_star pattern ≡ none
      → strip_suffix star pattern ≡ none
      → pattern ≡ name
      → pattern_matches pattern name ≡ true
  unfolding pattern_matches
  matches_exact uncut plain e = ground (arith, text_beq_iff pattern name)

strip_at : (t p s : Text) → s ≡ p ++ t → strip_suffix t s ≡ some p
strip_at t p s e = rw e (strip_suffix-append t p)

unslashed :
    (pattern : Text) → ((q : Text) → pattern ≢ q ++ star) → (q : Text) → pattern ≢ q ++ slash_star
unslashed pattern h q e = h (q ++ slash) (e ∙ sym (append_assoc q slash star))

pattern_matches_complete :
    (pattern name : Text) → Matches pattern name → pattern_matches pattern name ≡ true
pattern_matches_complete pattern name (everything e) = matches_everything pattern name e
pattern_matches_complete pattern name (root e) =
    matches_below pattern name name (strip_at slash_star name pattern e)
      (ground (arith, text_beq_iff name name))
pattern_matches_complete pattern name (below p r e f) =
    matches_below pattern name p (strip_at slash_star p pattern e)
      (rw f (ground (arith, starts_with-append (p ++ slash) r)))
pattern_matches_complete pattern name (glob p r e unslash f) =
    matches_glob pattern name p (none_of_ne slash_star pattern unslash) (strip_at star p pattern e)
      (rw f (starts_with-append p r))
pattern_matches_complete pattern name (exact plain e) =
    matches_exact pattern name (none_of_ne slash_star pattern (unslashed pattern plain))
      (none_of_ne star pattern plain) e

-- `patternMatches` decides the documented reading of a scope: `*` is everything, `p/*` is `p` and
-- what lies under `p/`, `p*` is a prefix, and anything else is the name itself.
pub pattern_matches_iff :
    (pattern name : Text) → (pattern_matches pattern name ≡ true) ↔ Matches pattern name
pattern_matches_iff pattern name =
    (pattern_matches_sound pattern name, pattern_matches_complete pattern name)
