-- ===== src/Prelude/Texts.antt =====
-- Text as the list of its UTF-16 code units, for what the code tests, cuts and joins.
use Prim.Native.Char.{code}
use Prim.Native.Nat.{ℕ}
use Prim.Native.String.{String}
use mathlib.Core.Path.{◌≡◌, refl, ap}
use mathlib.Core.Logic.{◌↔◌, ◌≢◌, inl, inr}
use mathlib.Core.Bool.{Bool, true, false, ◌&&◌}
use mathlib.Core.List.{List, [], ◌∷◌, ◌++◌}
use mathlib.Core.Option.{Option, none, some}
use native.Mathlib.Omega.{arith}
use hootifactory.Prelude.Tests.{
  Comparable, nat_beq, if◌then◌else◌, is_some, Bool-cases, Option-cases,
}
use hootifactory.Prelude.Lists.{length, length-append}

abbrev pub Text : Type 0
Text = List ℕ

-- A literal of the source (ASCII).
abbrev pub codes : String → Text
codes String.[] = []
codes (String.◌∷◌ c s) = code c ∷ codes s

unfoldable pub text_beq : Text → Text → Bool
text_beq [] [] = true
text_beq [] (_ ∷ _) = false
text_beq (_ ∷ _) [] = false
text_beq (c ∷ s) (d ∷ t) = nat_beq c d && text_beq s t

pub text_beq_iff : (s t : Text) → (text_beq s t ≡ true) ↔ (s ≡ t)
unfolding text_beq
text_beq_iff [] [] = ground arith
text_beq_iff [] (_ ∷ _) = ground arith
text_beq_iff (_ ∷ _) [] = ground arith
text_beq_iff (c ∷ s) (d ∷ t) = ground (arith, text_beq_iff s t)

instance abbrev pub text_eq : Comparable Text
text_eq = record { equals = text_beq; equals_iff = text_beq_iff }

-- What is left of a text behind a prefix: `s.startsWith(p)` with `s.slice(p.length)`.
pub strip_prefix : Text → Text → Option Text
strip_prefix [] s = some s
strip_prefix (p ∷ ps) [] = none
strip_prefix (p ∷ ps) (c ∷ s) = if nat_beq p c then strip_prefix ps s else none

-- `s.startsWith(p)`, the prefix first.
unfoldable pub starts_with : Text → Text → Bool
unfolding strip_prefix
starts_with p s = is_some (strip_prefix p s)

pub strip_prefix-append : (p r : Text) → strip_prefix p (p ++ r) ≡ some r
unfolding strip_prefix
strip_prefix-append [] r = refl
strip_prefix-append (c ∷ p) r = ground (arith, strip_prefix-append p r)

pub strip_prefix_sound : (p s : Text) {r : Text} → strip_prefix p s ≡ some r → s ≡ p ++ r
unfolding strip_prefix
strip_prefix_sound [] s h = ground arith
strip_prefix_sound (p ∷ ps) [] h = cc
strip_prefix_sound (p ∷ ps) (c ∷ s) {r} h = ground (arith, strip_prefix_sound ps s {r = r})

-- What stands before a suffix: `s.endsWith(t)` with `s.slice(0, -t.length)`.
unfoldable pub strip_suffix : Text → Text → Option Text
strip_suffix t [] = if text_beq t [] then some [] else none
strip_suffix t (c ∷ s) =
    if text_beq t (c ∷ s)
    then some []
    else elim (strip_suffix t s) [ none ↦ none | some r ↦ some (c ∷ r) ]

pub strip_suffix_sound : (t s : Text) {r : Text} → strip_suffix t s ≡ some r → s ≡ r ++ t
unfolding strip_suffix
strip_suffix_sound t [] h = ground (arith, text_beq_iff t [])
strip_suffix_sound t (c ∷ s) {r} h = elim (Bool-cases (text_beq t (c ∷ s))) [
  | inl e ↦ ground (arith, text_beq_iff t (c ∷ s))
  | inr e ↦ elim (Option-cases (strip_suffix t s)) [
    | inl missing ↦ ground arith
    | inr (q, found) ↦ ground (arith, strip_suffix_sound t s {r = q} found)
  ]
]

append-length_ne : (c : ℕ) (r t : Text) → t ≢ (c ∷ r) ++ t
append-length_ne c r t h = omega (arith, ap length h, length-append (c ∷ r) t)

pub strip_suffix-append : (t r : Text) → strip_suffix t (r ++ t) ≡ some r
unfolding strip_suffix text_beq
strip_suffix-append [] [] = refl
strip_suffix-append (d ∷ t) [] = ground (arith, text_beq_iff (d ∷ t) (d ∷ t))
strip_suffix-append t (c ∷ r) =
    ground (arith, text_beq_iff t (c ∷ r ++ t), append-length_ne c r t, strip_suffix-append t r)

pub strip_suffix-none : (t s : Text) → strip_suffix t s ≡ none → (q : Text) → s ≢ q ++ t
strip_suffix-none t s h q e = cc (h, ap (strip_suffix t) e, strip_suffix-append t q)

pub starts_with_sound : (p s : Text) → starts_with p s ≡ true → (r : Text) × (s ≡ p ++ r)
unfolding starts_with
starts_with_sound p s h = elim (Option-cases (strip_prefix p s)) [
  | inl missing ↦ absurd (cc (h, ap is_some missing))
  | inr (r, found) ↦ (r, strip_prefix_sound p s found)
]

pub starts_with-append : (p r : Text) → starts_with p (p ++ r) ≡ true
unfolding starts_with
starts_with-append p r = rw (strip_prefix-append p r)

-- The part behind the first occurrence of a character: `indexOf` with `slice(i + 1)`.
unfoldable pub after_char : ℕ → Text → Option Text
after_char c [] = none
after_char c (d ∷ s) = if nat_beq d c then some s else after_char c s
