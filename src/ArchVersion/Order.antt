-- ===== src/ArchVersion/Order.antt =====
-- `archVercmp` of packages/registry-arch/src/arch-vercmp.ts as an order.
use hootifactory.Prelude.{
  ℕ, ◌≡◌, refl, sym, inl, inr, List, [], ◌∷◌, Option, none, some, arith, ◌==◌, nat_eq, text_eq,
  Text, length, Bool-cases, text_beq_iff,
}
use hootifactory.ArchVersion.{
  VersionOrder, less, equal, greater, then_order, order_text, order_number, raw_ver_cmp,
  split_epoch, order_epoch, split_pkgrel, order_rel, arch_vercmp,
}
use hootifactory.ArchVersion.Blocks.{Block, number, alpha, blocks, order_blocks, loop-blocks}
use hootifactory.ArchVersion.Runs.{
  flip, Agrees, IsOrder, then-flip, then-Agrees, then-IsOrder, epoch-IsOrder, same_text, text-flips,
  text-Agrees, number-IsOrder,
}

same_blocks : (xs : List Block) → order_blocks xs xs ≡ equal
same_blocks [] = refl
same_blocks (number x ∷ xs) = rw (number-IsOrder.same x, same_blocks xs) refl
same_blocks (alpha x ∷ xs) = rw (same_text x, same_blocks xs) refl

blocks-flips : (xs ys : List Block) → order_blocks ys xs ≡ flip (order_blocks xs ys)
blocks-flips [] [] = refl
blocks-flips [] (number y ∷ ys) = refl
blocks-flips [] (alpha y ∷ ys) = refl
blocks-flips (number x ∷ xs) [] = refl
blocks-flips (alpha x ∷ xs) [] = refl
blocks-flips (number x ∷ xs) (alpha y ∷ ys) = refl
blocks-flips (alpha x ∷ xs) (number y ∷ ys) = refl
blocks-flips (number x ∷ xs) (number y ∷ ys) =
    rw (number-IsOrder.flips x y, blocks-flips xs ys)
      (sym (then-flip (order_number x y) (order_blocks xs ys)))
blocks-flips (alpha x ∷ xs) (alpha y ∷ ys) =
    rw (text-flips x y, blocks-flips xs ys) (sym (then-flip (order_text x y) (order_blocks xs ys)))

below_first : (s : VersionOrder) → Agrees less s less
below_first s = (λ e. absurd (cc e), λ e. refl, λ e. refl)

above_first : (s : VersionOrder) → Agrees greater s greater
above_first s = (λ e. absurd (cc e), λ e. refl, λ e. refl)

below_last : (r : VersionOrder) → Agrees r less less
below_last r = (λ e. refl, λ e. absurd (cc e), λ e. sym e)

above_last : (r : VersionOrder) → Agrees r greater greater
above_last r = (λ e. refl, λ e. absurd (cc e), λ e. sym e)

up_down : (t : VersionOrder) → Agrees less greater t
up_down t = (λ e. absurd (cc e), λ e. absurd (cc e), λ e. absurd (cc e))

down_up : (t : VersionOrder) → Agrees greater less t
down_up t = (λ e. absurd (cc e), λ e. absurd (cc e), λ e. absurd (cc e))

blocks-Agrees :
    (xs ys zs : List Block) → Agrees (order_blocks xs ys) (order_blocks ys zs) (order_blocks xs zs)
blocks-Agrees [] [] [] = (λ e. refl, λ e. refl, λ e. refl)
blocks-Agrees [] [] (number z ∷ zs) = below_last (order_blocks [] [])
blocks-Agrees [] [] (alpha z ∷ zs) = above_last (order_blocks [] [])
blocks-Agrees [] (number y ∷ ys) [] = up_down (order_blocks [] [])
blocks-Agrees [] (number y ∷ ys) (number z ∷ zs) =
    below_first (order_blocks (number y ∷ ys) (number z ∷ zs))
blocks-Agrees [] (number y ∷ ys) (alpha z ∷ zs) = above_last (order_blocks [] (number y ∷ ys))
blocks-Agrees [] (alpha y ∷ ys) [] = down_up (order_blocks [] [])
blocks-Agrees [] (alpha y ∷ ys) (number z ∷ zs) = below_last (order_blocks [] (alpha y ∷ ys))
blocks-Agrees [] (alpha y ∷ ys) (alpha z ∷ zs) =
    above_first (order_blocks (alpha y ∷ ys) (alpha z ∷ zs))
blocks-Agrees (number x ∷ xs) [] [] = above_first (order_blocks [] [])
blocks-Agrees (number x ∷ xs) [] (number z ∷ zs) =
    down_up (order_blocks (number x ∷ xs) (number z ∷ zs))
blocks-Agrees (number x ∷ xs) [] (alpha z ∷ zs) = above_first (order_blocks [] (alpha z ∷ zs))
blocks-Agrees (number x ∷ xs) (number y ∷ ys) [] =
    above_last (order_blocks (number x ∷ xs) (number y ∷ ys))
blocks-Agrees (number x ∷ xs) (number y ∷ ys) (number z ∷ zs) =
    then-Agrees (order_number x y) (order_number y z) (order_number x z) (order_blocks xs ys)
      (order_blocks ys zs) (order_blocks xs zs) (number-IsOrder.agrees x y z)
      (blocks-Agrees xs ys zs)
blocks-Agrees (number x ∷ xs) (number y ∷ ys) (alpha z ∷ zs) =
    above_last (order_blocks (number x ∷ xs) (number y ∷ ys))
blocks-Agrees (number x ∷ xs) (alpha y ∷ ys) [] = above_first (order_blocks (alpha y ∷ ys) [])
blocks-Agrees (number x ∷ xs) (alpha y ∷ ys) (number z ∷ zs) =
    down_up (order_blocks (number x ∷ xs) (number z ∷ zs))
blocks-Agrees (number x ∷ xs) (alpha y ∷ ys) (alpha z ∷ zs) =
    above_first (order_blocks (alpha y ∷ ys) (alpha z ∷ zs))
blocks-Agrees (alpha x ∷ xs) [] [] = below_first (order_blocks [] [])
blocks-Agrees (alpha x ∷ xs) [] (number z ∷ zs) = below_first (order_blocks [] (number z ∷ zs))
blocks-Agrees (alpha x ∷ xs) [] (alpha z ∷ zs) =
    up_down (order_blocks (alpha x ∷ xs) (alpha z ∷ zs))
blocks-Agrees (alpha x ∷ xs) (number y ∷ ys) [] = below_first (order_blocks (number y ∷ ys) [])
blocks-Agrees (alpha x ∷ xs) (number y ∷ ys) (number z ∷ zs) =
    below_first (order_blocks (number y ∷ ys) (number z ∷ zs))
blocks-Agrees (alpha x ∷ xs) (number y ∷ ys) (alpha z ∷ zs) =
    up_down (order_blocks (alpha x ∷ xs) (alpha z ∷ zs))
blocks-Agrees (alpha x ∷ xs) (alpha y ∷ ys) [] =
    below_last (order_blocks (alpha x ∷ xs) (alpha y ∷ ys))
blocks-Agrees (alpha x ∷ xs) (alpha y ∷ ys) (number z ∷ zs) =
    below_last (order_blocks (alpha x ∷ xs) (alpha y ∷ ys))
blocks-Agrees (alpha x ∷ xs) (alpha y ∷ ys) (alpha z ∷ zs) =
    then-Agrees (order_text x y) (order_text y z) (order_text x z) (order_blocks xs ys)
      (order_blocks ys zs) (order_blocks xs zs) (text-Agrees x y z) (blocks-Agrees xs ys zs)

blocks-IsOrder : IsOrder order_blocks
blocks-IsOrder = record { same = same_blocks; flips = blocks-flips; agrees = blocks-Agrees }

-- The comparison of two versions without epoch and release is the lexicographic order of their
-- blocks, in which letters are below the end and the end is below digits: it reads each version to
-- its end in as many times through its loop as the first has characters, and separators only part
-- blocks.
pub raw_ver_cmp_lem : (a b : Text) → raw_ver_cmp a b ≡ order_blocks (blocks a) (blocks b)
unfolding raw_ver_cmp
raw_ver_cmp_lem a b = elim (Bool-cases (a == b)) [
  | inl same ↦
      let e : a ≡ b = (text_beq_iff a b).0 same in rw (same, e) (sym (same_blocks (blocks b)))
  | inr other ↦ rw other (loop-blocks (length a) a b (omega arith))
]

raw-IsOrder : IsOrder raw_ver_cmp
raw-IsOrder = record {
  same = λ a. rw (raw_ver_cmp_lem a a) (same_blocks (blocks a));
  flips = λ a b. rw (raw_ver_cmp_lem a b, raw_ver_cmp_lem b a) (blocks-flips (blocks a) (blocks b));
  agrees = λ a b c.
      rw (raw_ver_cmp_lem a b, raw_ver_cmp_lem b c, raw_ver_cmp_lem a c)
        (blocks-Agrees (blocks a) (blocks b) (blocks c));
}

same_rel : (r : Option Text) → order_rel r r ≡ equal
unfolding order_rel
same_rel none = refl
same_rel (some a) = raw-IsOrder.same a

rel-flips : (r s : Option Text) → order_rel s r ≡ flip (order_rel r s)
unfolding order_rel
rel-flips none none = refl
rel-flips none (some b) = refl
rel-flips (some a) none = refl
rel-flips (some a) (some b) = raw-IsOrder.flips a b

rel-Agrees : (r s t : Option Text) → Agrees (order_rel r s) (order_rel s t) (order_rel r t)
unfolding order_rel
rel-Agrees none none none = (λ e. refl, λ e. refl, λ e. refl)
rel-Agrees none none (some c) = below_last equal
rel-Agrees none (some b) none = up_down equal
rel-Agrees none (some b) (some c) = below_first (raw_ver_cmp b c)
rel-Agrees (some a) none none = above_first equal
rel-Agrees (some a) none (some c) = down_up (raw_ver_cmp a c)
rel-Agrees (some a) (some b) none = above_last (raw_ver_cmp a b)
rel-Agrees (some a) (some b) (some c) = raw-IsOrder.agrees a b c

rel-IsOrder : IsOrder order_rel
rel-IsOrder = record { same = same_rel; flips = rel-flips; agrees = rel-Agrees }

module _ (parse_int : Text → ℕ) where
  abbrev parts : Text → Text × Option Text
  parts v = split_pkgrel (split_epoch parse_int v).1

  abbrev by_parts : Text → Text → VersionOrder
  by_parts a b =
      then_order (order_epoch (split_epoch parse_int a).0 (split_epoch parse_int b).0)
        (then_order (raw_ver_cmp (parts a).0 (parts b).0) (order_rel (parts a).1 (parts b).1))

  parts-IsOrder : IsOrder by_parts
  parts-IsOrder =
      then-IsOrder (λ v. (split_epoch parse_int v).0) (λ v. v) order_epoch
        (λ a b.
          then_order (raw_ver_cmp (parts a).0 (parts b).0) (order_rel (parts a).1 (parts b).1))
        epoch-IsOrder
        (then-IsOrder (λ v. (parts v).0) (λ v. (parts v).1) raw_ver_cmp order_rel raw-IsOrder
          rel-IsOrder)

  vercmp-parts : (a b : Text) → arch_vercmp parse_int a b ≡ by_parts a b
  unfolding arch_vercmp
  vercmp-parts a b = elim (Bool-cases (a == b)) [
    | inl same ↦
        let e : a ≡ b = (text_beq_iff a b).0 same in rw (same, e) (sym (parts-IsOrder.same b))
    | inr other ↦ rw other refl
  ]

-- The comparison of versions is a total order of classes of versions, however epochs are read: a
-- version is equal to itself, the order of two turns with them, and if the first is not above the
-- second and the second is not above the third, then neither is the first above the third.
pub arch_vercmp-IsOrder : (parse_int : Text → ℕ) → IsOrder (arch_vercmp parse_int)
arch_vercmp-IsOrder p = record {
  same = λ a. rw (vercmp-parts p a a) ((parts-IsOrder p).same a);
  flips = λ a b. rw (vercmp-parts p a b, vercmp-parts p b a) ((parts-IsOrder p).flips a b);
  agrees = λ a b c.
      rw (vercmp-parts p a b, vercmp-parts p b c, vercmp-parts p a c)
        ((parts-IsOrder p).agrees a b c);
}
