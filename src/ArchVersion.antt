-- ===== src/ArchVersion.antt =====
-- packages/registry-arch/src/arch-vercmp.ts: pacman's order of versions. A version is the list of
-- its character codes, and what is left of it stands for the index into it.
pub mod Blocks
pub mod Runs
pub mod Order
use hootifactory.Prelude.{
  ℕ, zero, suc, Bool, true, false, not, ◌&&◌, ◌||◌, List, [], ◌∷◌, ◌++◌, Option, none, some, ◌==◌,
  nat_eq, text_eq, Text, if◌then◌else◌, ltb, leb, length, keep, all,
}

-- A number below, equal to or above zero.
pub data VersionOrder : Type 0 where
  less equal greater : VersionOrder

-- What decides if the first does not.
abbrev pub then_order : VersionOrder → VersionOrder → VersionOrder
then_order less next = less
then_order equal next = next
then_order greater next = greater

abbrev pub is_digit : ℕ → Bool
is_digit c = leb 48 c && leb c 57

abbrev pub is_alpha : ℕ → Bool
is_alpha c = leb 97 c && leb c 122 || leb 65 c && leb c 90

abbrev pub is_alnum : ℕ → Bool
is_alnum c = is_digit c || is_alpha c

-- `a > b` on strings
unfoldable pub text_above : Text → Text → Bool
text_above [] t = false
text_above (c ∷ s) [] = true
text_above (c ∷ s) (d ∷ t) = ltb d c || (c == d && text_above s t)

-- `if (x !== y) return x > y ? 1 : -1`
unfoldable pub order_text : Text → Text → VersionOrder
order_text x y = if x == y then equal else if text_above x y then greater else less

-- `replace(/^0+/, "")`
unfoldable pub strip_zeros : Text → Text
strip_zeros [] = []
strip_zeros (c ∷ s) = let rest = strip_zeros s in if c == 48 then rest else c ∷ s

-- Two runs of digits.
unfoldable pub order_number : Text → Text → VersionOrder
order_number a_seg b_seg =
    let an = strip_zeros a_seg in
    let bn = strip_zeros b_seg in
    if length an == length bn
    then order_text an bn
    else if ltb (length bn) (length an)
    then greater
    else less

-- The loops over one version: separators, and the characters of one kind.
unfoldable pub skip_separators : Text → Text
skip_separators [] = []
skip_separators (c ∷ s) = let rest = skip_separators s in if is_alnum c then c ∷ s else rest

unfoldable pub run : (ℕ → Bool) → Text → Text
run p [] = []
run p (c ∷ s) = let rest = run p s in if p c then c ∷ rest else []

unfoldable pub drop_run : (ℕ → Bool) → Text → Text
drop_run p [] = []
drop_run p (c ∷ s) = let rest = drop_run p s in if p c then rest else c ∷ s

-- Behind the loop: `aRest` and `bRest` are the letters and digits that are left.
unfoldable pub order_rest : Text → Text → VersionOrder
order_rest a b = elim (keep is_alnum a) [
  | [] ↦ elim (keep is_alnum b) [ [] ↦ equal | d ∷ t ↦ if is_alpha d then greater else less ]
  | c ∷ s ↦ elim (keep is_alnum b) [ [] ↦ if is_alpha c then less else greater | d ∷ t ↦ equal ]
]

-- The loop, at most so many times. Each time takes a character of `a` at least.
unfoldable pub raw_loop : ℕ → Text → Text → VersionOrder
raw_loop zero a b = order_rest (skip_separators a) (skip_separators b)
raw_loop (suc n) a b = elim (skip_separators a) [
  | [] ↦ order_rest [] (skip_separators b)
  | c ∷ s ↦ elim (skip_separators b) [
    | [] ↦ order_rest (c ∷ s) []
    | d ∷ t ↦
        let kind : ℕ → Bool = if is_digit c then is_digit else is_alpha in
        let rest = raw_loop n (drop_run kind (c ∷ s)) (drop_run kind (d ∷ t)) in
        if is_digit c
        then if is_digit d
          then then_order (order_number (run is_digit (c ∷ s)) (run is_digit (d ∷ t))) rest
          else greater
        else if is_digit d
        then less
        else then_order (order_text (run is_alpha (c ∷ s)) (run is_alpha (d ∷ t))) rest
  ]
]

-- `rawVerCmp`
unfoldable pub raw_ver_cmp : Text → Text → VersionOrder
raw_ver_cmp a b = if a == b then equal else raw_loop (length a) a b

-- What stands before and behind the first `:`, if there is one.
unfoldable pub split_colon : Text → Option (Text × Text)
split_colon [] = none
split_colon (c ∷ s) =
    let rest = split_colon s in
    if c == 58
    then some ([], s)
    else elim rest [ none ↦ none | some (before, behind) ↦ some (c ∷ before, behind) ]

-- `/^[0-9]+$/`
abbrev pub is_number : Text → Bool
is_number [] = false
is_number (c ∷ s) = all is_digit (c ∷ s)

-- `splitPkgrel`: at the last `-`.
unfoldable pub split_pkgrel : Text → Text × Option Text
split_pkgrel [] = ([], none)
split_pkgrel (c ∷ s) =
    let rest = split_pkgrel s in
    elim rest.1 [
      | some rel ↦ (c ∷ rest.0, some rel)
      | none ↦ if c == 45 then ([], some s) else (c ∷ rest.0, none)
    ]

-- A package release that is there is above none.
unfoldable pub order_rel : Option Text → Option Text → VersionOrder
order_rel none none = equal
order_rel none (some b) = less
order_rel (some a) none = greater
order_rel (some a) (some b) = raw_ver_cmp a b

-- Two epochs.
unfoldable pub order_epoch : ℕ → ℕ → VersionOrder
order_epoch a b = if a == b then equal else if ltb b a then greater else less

-- `Number.parseInt` of digits, which rounds what a double cannot hold.
module _ (parse_int : Text → ℕ) where
  unfoldable pub split_epoch : Text → ℕ × Text
  split_epoch v = elim (split_colon v) [
    | none ↦ (0, v)
    | some (head, behind) ↦ if is_number head then (parse_int head, behind) else (0, v)
  ]

  unfoldable pub arch_vercmp : Text → Text → VersionOrder
  arch_vercmp a b =
      if a == b
      then equal
      else let ea = split_epoch a in
        let eb = split_epoch b in
        let pa = split_pkgrel ea.1 in
        let pb = split_pkgrel eb.1 in
        then_order (order_epoch ea.0 eb.0)
          (then_order (raw_ver_cmp pa.0 pb.0) (order_rel pa.1 pb.1))
