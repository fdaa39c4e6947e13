-- ===== src/Packages/Immutable/Conflicts.antt =====
-- What a publish that meets a version of its key leaves
-- (packages/registry/src/plugin/helpers.ts, packages/registry-platform/src/packages/versions.ts).
use hootifactory.Prelude.{◌≡◌, ◌⊎◌, Bool, true, false, List, ◌∷◌, nat_eq}
use hootifactory.Content.State.{BlobRef}

-- What a release that completes or fails leaves of the references.
abbrev pub IsReleased : Bool → BlobRef → List BlobRef → List BlobRef → Type 0
IsReleased true ref before after = after ≡ before
IsReleased false ref before after = (after ≡ before) ⊎ (after ≡ ref ∷ before)
