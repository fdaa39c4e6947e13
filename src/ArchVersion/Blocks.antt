-- ===== src/ArchVersion/Blocks.antt =====
-- The loop of packages/registry-arch/src/arch-vercmp.ts against the order of the lists of blocks.
use hootifactory.Prelude.{
  ℕ, zero, suc, ◌≤◌, ◌≡◌, refl, inl, inr, Bool, true, false, List, [], ◌∷◌, ◌++◌, Option, none,
  some, arith, nat_eq, text_eq, Text, if◌then◌else◌, length, Bool-cases, List-cases,
}
use mathlib.Core.List.{append_assoc, append-nil}
use hootifactory.ArchVersion.{
  VersionOrder, less, equal, greater, then_order, is_digit, is_alpha, is_alnum, order_text,
  order_number, skip_separators, run, drop_run, order_rest, raw_loop,
}

-- A maximal run of digits, or of letters.
pub data Block : Type 0 where
  number alpha : Text → Block

-- The blocks of a version, from the one that is being read.
abbrev pub blocks_from : Option Block → Text → List Block
blocks_from none [] = []
blocks_from (some b) [] = b ∷ []
blocks_from none (c ∷ s) =
    if is_digit c
    then blocks_from (some (number (c ∷ []))) s
    else if is_alpha c
    then blocks_from (some (alpha (c ∷ []))) s
    else blocks_from none s
blocks_from (some (number x)) (c ∷ s) =
    if is_digit c
    then blocks_from (some (number (x ++ (c ∷ [])))) s
    else if is_alpha c
    then number x ∷ blocks_from (some (alpha (c ∷ []))) s
    else number x ∷ blocks_from none s
blocks_from (some (alpha x)) (c ∷ s) =
    if is_digit c
    then alpha x ∷ blocks_from (some (number (c ∷ []))) s
    else if is_alpha c
    then blocks_from (some (alpha (x ++ (c ∷ [])))) s
    else alpha x ∷ blocks_from none s

abbrev pub blocks : Text → List Block
blocks s = blocks_from none s

-- Letters are below the end, and the end is below digits.
abbrev pub order_blocks : List Block → List Block → VersionOrder
order_blocks [] [] = equal
order_blocks [] (number y ∷ ys) = less
order_blocks [] (alpha y ∷ ys) = greater
order_blocks (number x ∷ xs) [] = greater
order_blocks (alpha x ∷ xs) [] = less
order_blocks (number x ∷ xs) (alpha y ∷ ys) = greater
order_blocks (alpha x ∷ xs) (number y ∷ ys) = less
order_blocks (number x ∷ xs) (number y ∷ ys) = then_order (order_number x y) (order_blocks xs ys)
order_blocks (alpha x ∷ xs) (alpha y ∷ ys) = then_order (order_text x y) (order_blocks xs ys)

not_both : (c : ℕ) → is_digit c ≡ true → is_alpha c ≡ false
not_both c h = ground arith

read-number :
    (x s : Text)
    → blocks_from (some (number x)) s ≡ number (x ++ run is_digit s) ∷ blocks (drop_run is_digit s)
unfolding run drop_run
read-number x [] = rw (append-nil x) refl
read-number x (c ∷ s) = elim (Bool-cases (is_digit c)) [
  | inl digit ↦
      rw (digit, read-number (x ++ (c ∷ [])) s, append_assoc x (c ∷ []) (run is_digit s)) refl
  | inr other ↦ elim (Bool-cases (is_alpha c)) [
    | inl letter ↦ rw (other, letter, append-nil x, other) refl
    | inr between ↦ rw (other, between, append-nil x, other) refl
  ]
]

read-alpha :
    (x s : Text)
    → blocks_from (some (alpha x)) s ≡ alpha (x ++ run is_alpha s) ∷ blocks (drop_run is_alpha s)
unfolding run drop_run
read-alpha x [] = rw (append-nil x) refl
read-alpha x (c ∷ s) = elim (Bool-cases (is_digit c)) [
  | inl digit ↦ rw (digit, not_both c digit, append-nil x, digit) refl
  | inr other ↦ elim (Bool-cases (is_alpha c)) [
    | inl letter ↦
        rw (other, letter, read-alpha (x ++ (c ∷ [])) s, append_assoc x (c ∷ []) (run is_alpha s))
          refl
    | inr between ↦ rw (other, between, append-nil x, other, between) refl
  ]
]

first-number :
    (c : ℕ) (s : Text)
    → is_digit c ≡ true
    → blocks (c ∷ s) ≡ number (run is_digit (c ∷ s)) ∷ blocks (drop_run is_digit (c ∷ s))
unfolding run drop_run
first-number c s digit = rw digit (read-number (c ∷ []) s)

first-alpha :
    (c : ℕ) (s : Text)
    → is_digit c ≡ false
    → is_alpha c ≡ true
    → blocks (c ∷ s) ≡ alpha (run is_alpha (c ∷ s)) ∷ blocks (drop_run is_alpha (c ∷ s))
unfolding run drop_run
first-alpha c s other letter = rw (other, letter) (read-alpha (c ∷ []) s)

blocks-skip : (s : Text) → blocks (skip_separators s) ≡ blocks s
unfolding skip_separators
blocks-skip [] = refl
blocks-skip (c ∷ s) = elim (Bool-cases (is_digit c)) [
  | inl digit ↦ rw (digit, digit) refl
  | inr other ↦ elim (Bool-cases (is_alpha c)) [
    | inl letter ↦ rw (other, letter, other, letter) refl
    | inr between ↦ rw (other, between) (blocks-skip s)
  ]
]

skip-alnum : (s t : Text) (c : ℕ) → skip_separators s ≡ c ∷ t → is_alnum c ≡ true
unfolding skip_separators
skip-alnum [] t c h = absurd (let f : [] ≡ c ∷ t = h in cc f)
skip-alnum (d ∷ s) t c h = elim (Bool-cases (is_alnum d)) [
  | inl here ↦ let f : d ∷ s ≡ c ∷ t = rw here at h in let e : d ≡ c = cc f in rw e at here
  | inr between ↦ skip-alnum s t c (rw between at h)
]

length-skip : (s : Text) → length (skip_separators s) ≤ length s
unfolding skip_separators
length-skip [] = omega arith
length-skip (c ∷ s) = elim (Bool-cases (is_alnum c)) [
  | inl here ↦ rw here (omega arith)
  | inr between ↦ rw between (omega (arith, length-skip s))
]

length-drop_run : (p : ℕ → Bool) (s : Text) → length (drop_run p s) ≤ length s
unfolding drop_run
length-drop_run p [] = omega arith
length-drop_run p (c ∷ s) = elim (Bool-cases (p c)) [
  | inl here ↦ rw here (omega (arith, length-drop_run p s))
  | inr between ↦ rw between (omega arith)
]

-- Behind the loop one of the two has come to its end.
order_rest-blocks :
    (c : ℕ) (s : Text)
    → is_alnum c ≡ true
    → (order_rest (c ∷ s) [] ≡ order_blocks (blocks (c ∷ s)) [])
      × (order_rest [] (c ∷ s) ≡ order_blocks [] (blocks (c ∷ s)))
unfolding order_rest
order_rest-blocks c s some' = elim (Bool-cases (is_digit c)) [
  | inl digit ↦ rw (first-number c s digit, order_rest, digit, not_both c digit) (refl, refl)
  | inr other ↦
      let letter : is_alpha c ≡ true = ground arith in
      rw (first-alpha c s other letter, order_rest, other, letter, letter) (refl, refl)
]

-- One more time through the loop, on what the separators leave.
raw_step :
    (n : ℕ) (a b s t : Text) (c d : ℕ)
    → skip_separators a ≡ c ∷ s
    → skip_separators b ≡ d ∷ t
    → is_alnum c ≡ true
    → is_alnum d ≡ true
    → (((p : ℕ → Bool)
        → p c ≡ true
        → raw_loop n (drop_run p (c ∷ s)) (drop_run p (d ∷ t))
          ≡ order_blocks (blocks (drop_run p (c ∷ s))) (blocks (drop_run p (d ∷ t)))))
    → raw_loop (suc n) a b ≡ order_blocks (blocks (c ∷ s)) (blocks (d ∷ t))
unfolding raw_loop
raw_step n a b s t c d at_a at_b some_c some_d rest = elim (Bool-cases (is_digit c)) [
  | inl digit ↦ elim (Bool-cases (is_digit d)) [
    | inl digit' ↦
        rw
          (
            first-number c s digit,
            first-number d t digit',
            raw_loop,
            at_a,
            at_b,
            digit,
            digit',
            rest is_digit digit,
          )
          refl
    | inr other' ↦
        let letter' : is_alpha d ≡ true = ground arith in
        rw
          (
            first-number c s digit,
            first-alpha d t other' letter',
            raw_loop,
            at_a,
            at_b,
            digit,
            other',
          )
          refl
  ]
  | inr other ↦
      let letter : is_alpha c ≡ true = ground arith in
      elim (Bool-cases (is_digit d)) [
        | inl digit' ↦
            rw
              (
                first-alpha c s other letter,
                first-number d t digit',
                raw_loop,
                at_a,
                at_b,
                other,
                digit',
              )
              refl
        | inr other' ↦
            let letter' : is_alpha d ≡ true = ground arith in
            rw
              (
                first-alpha c s other letter,
                first-alpha d t other' letter',
                raw_loop,
                at_a,
                at_b,
                other,
                other',
                rest is_alpha letter,
              )
              refl
      ]
]

drops : (p : ℕ → Bool) (c : ℕ) (s : Text) → p c ≡ true → length (drop_run p (c ∷ s)) ≤ length s
unfolding drop_run
drops p c s h = rw h (length-drop_run p s)

pub loop-blocks :
    (n : ℕ) (a b : Text) → length a ≤ n → raw_loop n a b ≡ order_blocks (blocks a) (blocks b)
unfolding raw_loop order_rest skip_separators
loop-blocks zero [] b enough = elim (List-cases (skip_separators b)) [
  | inl done ↦ rw (← blocks-skip b, done, raw_loop) refl
  | inr (d, t, at_b) ↦
      rw (← blocks-skip b, at_b, raw_loop) (order_rest-blocks d t (skip-alnum b t d at_b)).1
]
loop-blocks zero (c ∷ a) b enough = absurd (omega (arith, enough))
loop-blocks (suc n) a b enough = elim (List-cases (skip_separators a)) [
  | inl done_a ↦ elim (List-cases (skip_separators b)) [
    | inl done_b ↦ rw (← blocks-skip a, ← blocks-skip b, raw_loop, done_a, done_b) refl
    | inr (d, t, at_b) ↦
        rw (← blocks-skip a, ← blocks-skip b, raw_loop, done_a, at_b)
          (order_rest-blocks d t (skip-alnum b t d at_b)).1
  ]
  | inr (c, s, at_a) ↦
      let some_c : is_alnum c ≡ true = skip-alnum a s c at_a in
      elim (List-cases (skip_separators b)) [
        | inl done_b ↦
            rw (← blocks-skip a, ← blocks-skip b, raw_loop, at_a, done_b)
              (order_rest-blocks c s some_c).0
        | inr (d, t, at_b) ↦
            let short : suc (length s) ≤ length a = rw at_a at (length-skip a) in
            rw (← blocks-skip a, ← blocks-skip b, at_a, at_b)
              (raw_step n a b s t c d at_a at_b some_c (skip-alnum b t d at_b) λ p y.
                loop-blocks n (drop_run p (c ∷ s)) (drop_run p (d ∷ t))
                  (omega (arith, drops p c s y, short, enough)))
      ]
]
