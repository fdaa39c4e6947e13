-- ===== src/Tests/ArchVersionTests.antt =====
-- Tests of packages/registry-arch/src/arch-vercmp.ts.
use hootifactory.Prelude.{ℕ, ◌+◌, ◌-◌, ◌*◌, ◌≡◌, refl, [], ◌∷◌, Text, codes, text_beq}
use hootifactory.ArchVersion.{
  less, equal, greater, raw_ver_cmp, arch_vercmp, order_epoch, split_epoch, split_colon,
  split_pkgrel, raw_loop, skip_separators, order_number, strip_zeros, run, order_text, text_above,
  drop_run, order_rest, order_rel,
}
use hootifactory.ArchVersion.Blocks.{blocks, order_blocks}
use hootifactory.ArchVersion.Order.{raw_ver_cmp_lem, arch_vercmp-IsOrder}
use hootifactory.ArchVersion.Runs.{IsOrder}

-- The value of decimal digits, behind those read.
abbrev decimal : ℕ → Text → ℕ
decimal n [] = n
decimal n (c ∷ s) = decimal (n * 10 + (c - 48)) s

epoch_first : arch_vercmp (decimal 0) (codes "1:1.0-1") (codes "2.9-3") ≡ greater
unfolding arch_vercmp text_beq order_epoch split_epoch split_colon raw_ver_cmp split_pkgrel raw_loop
    skip_separators order_number strip_zeros run order_text text_above drop_run order_rest order_rel
epoch_first = refl

zeros_and_separators : arch_vercmp (decimal 0) (codes "1.02-1") (codes "1_2-1") ≡ equal
unfolding arch_vercmp text_beq order_epoch split_epoch split_colon raw_ver_cmp split_pkgrel raw_loop
    skip_separators order_number strip_zeros run order_text text_above drop_run order_rest order_rel
zeros_and_separators = refl

letters_below_end : arch_vercmp (decimal 0) (codes "1.0rc1-1") (codes "1.0-1") ≡ less
unfolding arch_vercmp text_beq order_epoch split_epoch split_colon raw_ver_cmp split_pkgrel raw_loop
    skip_separators order_number strip_zeros run order_text text_above drop_run order_rest order_rel
letters_below_end = refl

raw_ver_cmp_lem_example :
    raw_ver_cmp (codes "1.0rc1") (codes "1.0")
    ≡ order_blocks (blocks (codes "1.0rc1")) (blocks (codes "1.0"))
raw_ver_cmp_lem_example = raw_ver_cmp_lem (codes "1.0rc1") (codes "1.0")

arch_vercmp-IsOrder_example : IsOrder (arch_vercmp (decimal 0))
arch_vercmp-IsOrder_example = arch_vercmp-IsOrder (decimal 0)
