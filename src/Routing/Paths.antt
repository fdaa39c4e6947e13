-- ===== src/Routing/Paths.antt =====
-- Splitting a path into segments and joining them again, and which texts are its prefixes by whole
-- segments (packages/registry-platform/src/routing/resolve-repository.ts).
use hootifactory.Prelude.{
  ℕ, zero, suc, ◌≤◌, ◌≡◌, refl, sym, ◌∙◌, ap, ◌⊎◌, inl, inr, ◌↔◌, true, false, List, [], ◌∷◌, ◌++◌,
  arith, ◌==◌, nat_eq, text_eq, Text, length, length-append, contains, Bool-cases,
}
use mathlib.Core.List.{append_assoc, append-nil}
use hootifactory.Routing.{slash, cons_first, split_path, join_path, take, path_prefixes}

-- A mount path that the path stands below, or that is the path.
abbrev pub Below : Text → Text → Type 0
Below mount norm = (norm ≡ mount) ⊎ ((rest : Text) × (norm ≡ mount ++ (slash ∷ rest)))

split-cons : (s : Text) → (x : Text) × (xs : List Text) × (split_path s ≡ x ∷ xs)
unfolding split_path
split-cons [] = ([], [], refl)
split-cons (c ∷ s) = elim (Bool-cases (c == slash)) [
  | inl cut ↦ rw cut ([], split_path s, refl)
  | inr stays ↦ let (x, xs, shape) = split-cons s in rw (stays, shape) (c ∷ x, xs, refl)
]

join-cons :
    (x : Text) (xs : List Text) (s : Text)
    → split_path s ≡ x ∷ xs
    → (pre : Text) → join_path (pre ∷ x ∷ xs) ≡ pre ++ (slash ∷ join_path (x ∷ xs))
unfolding join_path
join-cons x xs s h pre = refl

join-first : (c : ℕ) (x : Text) (xs : List Text) → join_path ((c ∷ x) ∷ xs) ≡ c ∷ join_path (x ∷ xs)
unfolding join_path
join-first c x [] = refl
join-first c x (y ∷ ys) = refl

-- Joining what was split gives the path back.
pub join-split_path : (s : Text) → join_path (split_path s) ≡ s
unfolding split_path join_path
join-split_path [] = refl
join-split_path (c ∷ s) =
    let (x, xs, shape) = split-cons s in
    let rest : join_path (x ∷ xs) ≡ s = rw shape at (join-split_path s) in
    elim (Bool-cases (c == slash)) [
      | inl cut ↦ rw (cut, shape, rest) (let e : c ≡ slash = ground arith in rw e refl)
      | inr stays ↦ rw (stays, shape, join-first c x xs, rest) refl
    ]

cons_first-append :
    (c : ℕ) (x : Text) (xs ys : List Text)
    → cons_first c ((x ∷ xs) ++ ys) ≡ cons_first c (x ∷ xs) ++ ys
cons_first-append c x xs ys = refl

split-append : (m t : Text) → split_path (m ++ (slash ∷ t)) ≡ split_path m ++ split_path t
unfolding split_path
split-append [] t = refl
split-append (c ∷ m) t = elim (Bool-cases (c == slash)) [
  | inl cut ↦ rw (cut, split-append m t) refl
  | inr stays ↦ let (x, xs, shape) = split-cons m in rw (stays, split-append m t, shape) refl
]

take-append : (xs ys : List Text) → take (length xs) (xs ++ ys) ≡ xs
take-append [] ys = refl
take-append (x ∷ xs) ys = rw (take-append xs ys) refl

-- Any first segments, at least one, are the path or stand before a slash.
join_take :
    (i : ℕ) (x : Text) (xs : List Text)
    → Below (join_path (take (suc i) (x ∷ xs))) (join_path (x ∷ xs))
unfolding join_path
join_take zero x [] = inl refl
join_take (suc i) x [] = inl refl
join_take zero x (y ∷ ys) = inr (join_path (y ∷ ys), refl)
join_take (suc i) x (y ∷ ys) = elim (join_take i y ys) [
  | inl whole ↦ inl (ap (λ r. x ++ (slash ∷ r)) whole)
  | inr (rest, cut) ↦
      let j = join_path (take (suc i) (y ∷ ys)) in
      inr (rest, ap (λ r. x ++ (slash ∷ r)) cut ∙ sym (append_assoc x (slash ∷ j) (slash ∷ rest)))
]

prefix_sound :
    (n : ℕ) (x : Text) (xs : List Text) (mount : Text)
    → contains (path_prefixes n (x ∷ xs)) mount ≡ true
    → Below mount (join_path (x ∷ xs))
unfolding path_prefixes
prefix_sound zero x xs mount h = absurd (let f : false ≡ true = h in cc)
prefix_sound (suc n) x xs mount h =
    let j = join_path (take (suc n) (x ∷ xs)) in
    elim (Bool-cases (j == mount)) [
      | inl same ↦
          let e : j ≡ mount = (text_eq.equals_iff j mount).0 same in rw e at (join_take n x xs)
      | inr other ↦ prefix_sound n x xs mount (rw other at h)
    ]

prefix_complete :
    (n i : ℕ) (segments : List Text)
    → 1 ≤ i
    → i ≤ n
    → contains (path_prefixes n segments) (join_path (take i segments)) ≡ true
unfolding path_prefixes
prefix_complete zero i segments low high = absurd (omega arith)
prefix_complete (suc n) i segments low high = elim (Bool-cases (i == suc n)) [
  | inl top ↦
      let e : i ≡ suc n = ground arith in
      let j = join_path (take (suc n) segments) in rw (e, (text_eq.equals_iff j j).1 refl) refl
  | inr other ↦ rw (prefix_complete n i segments low (ground arith)) (ground arith)
]

split-length : (m : Text) → 1 ≤ length (split_path m)
split-length m = let (x, xs, shape) = split-cons m in rw shape (omega arith)

-- The prefixes that are looked up are the mount paths that the path stands below.
pub prefixes_iff :
    (norm mount : Text)
    → (contains (path_prefixes (length (split_path norm)) (split_path norm)) mount ≡ true)
      ↔ Below mount norm
prefixes_iff norm mount = (
  λ h.
      let (x, xs, shape) = split-cons norm in
      let out = prefix_sound (suc (length xs)) x xs mount (rw shape at h) in
      let whole : join_path (x ∷ xs) ≡ norm = rw shape at (join-split_path norm) in rw whole at out,
  λ below. elim below [
    | inl same ↦
        let all' : take (length (split_path mount)) (split_path mount) ≡ split_path mount =
          rw (append-nil (split_path mount)) at (take-append (split_path mount) []) in
        rw same (
          rw (all', join-split_path mount) at
            (prefix_complete (length (split_path mount)) (length (split_path mount))
              (split_path mount) (split-length mount) (omega arith)))
    | inr (rest, cut) ↦
        let parts : split_path norm ≡ split_path mount ++ split_path rest =
          rw cut (split-append mount rest) in
        rw parts (
          rw (take-append (split_path mount) (split_path rest), join-split_path mount) at
            (prefix_complete (length (split_path mount ++ split_path rest))
              (length (split_path mount)) (split_path mount ++ split_path rest) (split-length mount)
              (omega (arith, length-append (split_path mount) (split_path rest)))))
  ],
)
