-- ===== src/ArchVersion/Runs.antt =====
-- The orders of runs of digits and of letters in packages/registry-arch/src/arch-vercmp.ts, and
-- how one order after another is an order.
use hootifactory.Prelude.{
  ℕ, ◌≡◌, refl, sym, inl, inr, false, [], ◌∷◌, arith, ◌==◌, nat_eq, text_eq, Text, ltb, length,
  Bool-cases, text_beq, text_beq_iff,
}
use hootifactory.ArchVersion.{
  VersionOrder, less, equal, greater, then_order, text_above, order_text, order_number, strip_zeros,
  order_epoch,
}

abbrev pub flip : VersionOrder → VersionOrder
flip less = greater
flip equal = equal
flip greater = less

-- What the order of the first two and of the last two says of the order of the first and the last.
abbrev pub Agrees : VersionOrder → VersionOrder → VersionOrder → Type 0
Agrees r s t = (r ≡ equal → t ≡ s) × (s ≡ equal → t ≡ r) × (r ≡ s → t ≡ r)

module _ {A : Type 0} (order : A → A → VersionOrder) where
  -- A total order of classes of values.
  pub record IsOrder : Type 0 where
    pub same : (a : A) → order a a ≡ equal
    pub flips : (a b : A) → order b a ≡ flip (order a b)
    pub agrees : (a b c : A) → Agrees (order a b) (order b c) (order a c)

pub then-flip : (r s : VersionOrder) → flip (then_order r s) ≡ then_order (flip r) (flip s)
then-flip less s = refl
then-flip equal s = refl
then-flip greater s = refl

pub then-Agrees :
    (r s t r' s' t' : VersionOrder)
    → Agrees r s t
    → Agrees r' s' t'
    → Agrees (then_order r r') (then_order s s') (then_order t t')
then-Agrees equal s t r' s' t' (h, k, m) next =
    rw (h refl) (elim s as (λ s. Agrees r' (then_order s s') (then_order s t')) [
      | less ↦ (λ e. refl, λ e. absurd (cc e), λ e. sym e)
      | equal ↦ next
      | greater ↦ (λ e. refl, λ e. absurd (cc e), λ e. sym e)
    ])
then-Agrees less equal t r' s' t' (h, k, m) next =
    rw (k refl) (λ e. absurd (cc e), λ e. refl, λ e. refl)
then-Agrees less less t r' s' t' (h, k, m) next = rw (m refl) (λ e. refl, λ e. refl, λ e. refl)
then-Agrees less greater t r' s' t' a next =
    (λ e. absurd (cc e), λ e. absurd (cc e), λ e. absurd (cc e))
then-Agrees greater equal t r' s' t' (h, k, m) next =
    rw (k refl) (λ e. absurd (cc e), λ e. refl, λ e. refl)
then-Agrees greater greater t r' s' t' (h, k, m) next =
    rw (m refl) (λ e. refl, λ e. refl, λ e. refl)
then-Agrees greater less t r' s' t' a next =
    (λ e. absurd (cc e), λ e. absurd (cc e), λ e. absurd (cc e))

-- One order after another, on what two functions take of a value.
pub then-IsOrder :
    {A B C : Type 0} (f : C → A) (g : C → B) (first : A → A → VersionOrder)
    (next : B → B → VersionOrder)
    → IsOrder first
    → IsOrder next
    → IsOrder (λ x y. then_order (first (f x) (f y)) (next (g x) (g y)))
then-IsOrder f g first next o p = record {
  same = λ a. rw (o.same (f a), p.same (g a)) refl;
  flips = λ a b.
      rw (o.flips (f a) (f b), p.flips (g a) (g b))
        (sym (then-flip (first (f a) (f b)) (next (g a) (g b))));
  agrees = λ a b c.
      then-Agrees (first (f a) (f b)) (first (f b) (f c)) (first (f a) (f c)) (next (g a) (g b))
        (next (g b) (g c)) (next (g a) (g c)) (o.agrees (f a) (f b) (f c))
        (p.agrees (g a) (g b) (g c));
}

pub epoch-IsOrder : IsOrder order_epoch
unfolding order_epoch
epoch-IsOrder = record {
  same = λ a. ground arith;
  flips = λ a b. ground arith;
  agrees = λ a b c. ground arith;
}

order_text-cons :
    (c d : ℕ) (s t : Text)
    → order_text (c ∷ s) (d ∷ t) ≡ then_order (order_epoch c d) (order_text s t)
unfolding order_text text_above order_epoch text_beq
order_text-cons c d s t = elim (Bool-cases (c == d)) [
  | inr other ↦ rw other (ground arith)
  | inl same ↦
      let no_more : ltb d c ≡ false = ground arith in
      elim (Bool-cases (s == t)) [
        | inl rest ↦ rw (same, rest) refl
        | inr rest ↦ rw (same, rest, no_more) refl
      ]
]

pub same_text : (x : Text) → order_text x x ≡ equal
unfolding order_text
same_text x = rw ((text_beq_iff x x).1 refl) refl

pub text-flips : (x y : Text) → order_text y x ≡ flip (order_text x y)
unfolding order_text text_above text_beq
text-flips [] [] = refl
text-flips [] (d ∷ t) = refl
text-flips (c ∷ s) [] = refl
text-flips (c ∷ s) (d ∷ t) =
    rw (order_text-cons c d s t, order_text-cons d c t s, text-flips s t, epoch-IsOrder.flips c d)
      (sym (then-flip (order_epoch c d) (order_text s t)))

pub text-Agrees : (x y z : Text) → Agrees (order_text x y) (order_text y z) (order_text x z)
unfolding order_text text_above text_beq
text-Agrees [] [] z = (λ e. refl, λ e. e, λ e. sym e)
text-Agrees [] (d ∷ t) [] = (λ e. absurd (cc e), λ e. absurd (cc e), λ e. absurd (cc e))
text-Agrees [] (d ∷ t) (b ∷ u) = (λ e. absurd (cc e), λ e. refl, λ e. refl)
text-Agrees (c ∷ s) [] [] = (λ e. absurd (cc e), λ e. refl, λ e. absurd (cc e))
text-Agrees (c ∷ s) [] (b ∷ u) = (λ e. absurd (cc e), λ e. absurd (cc e), λ e. absurd (cc e))
text-Agrees (c ∷ s) (d ∷ t) [] = (λ e. refl, λ e. absurd (cc e), λ e. sym e)
text-Agrees (c ∷ s) (d ∷ t) (b ∷ u) =
    rw (order_text-cons c d s t, order_text-cons d b t u, order_text-cons c b s u)
      (then-Agrees (order_epoch c d) (order_epoch d b) (order_epoch c b) (order_text s t)
        (order_text t u) (order_text s u) (epoch-IsOrder.agrees c d b) (text-Agrees s t u))

text-IsOrder : IsOrder order_text
text-IsOrder = record { same = same_text; flips = text-flips; agrees = text-Agrees }

abbrev by_length : Text → Text → VersionOrder
by_length x y =
    then_order (order_epoch (length (strip_zeros x)) (length (strip_zeros y)))
      (order_text (strip_zeros x) (strip_zeros y))

order_number_lem : (x y : Text) → order_number x y ≡ by_length x y
unfolding order_number order_epoch
order_number_lem x y =
    let an = strip_zeros x in
    let bn = strip_zeros y in
    elim (Bool-cases (length an == length bn)) [
      | inl same ↦ rw same refl
      | inr other ↦ elim (Bool-cases (ltb (length bn) (length an))) [
        | inl longer ↦ rw (other, longer) refl
        | inr shorter ↦ rw (other, shorter) refl
      ]
    ]

by_length-IsOrder : IsOrder by_length
by_length-IsOrder =
    then-IsOrder (λ x. length (strip_zeros x)) strip_zeros order_epoch order_text epoch-IsOrder
      text-IsOrder

pub number-IsOrder : IsOrder order_number
number-IsOrder = record {
  same = λ a. rw (order_number_lem a a) (by_length-IsOrder.same a);
  flips = λ a b. rw (order_number_lem a b, order_number_lem b a) (by_length-IsOrder.flips a b);
  agrees = λ a b c.
      rw (order_number_lem a b, order_number_lem b c, order_number_lem a c)
        (by_length-IsOrder.agrees a b c);
}
