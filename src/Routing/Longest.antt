-- ===== src/Routing/Longest.antt =====
-- Which repository `resolveRepository` finds
-- (packages/registry-platform/src/routing/resolve-repository.ts).
use hootifactory.Prelude.{
  ℕ, ◌≤◌, ◌≡◌, ◌≢◌, refl, sym, ap, All, nat_beq_iff, ◌∙◌, subst, ◌⊎◌, inl, inr, ◌↔◌, Bool, true,
  false, List, [], ◌∷◌, ◌++◌, none, some, arith, ◌==◌, nat_eq, text_eq, Text, ltb, length, keep,
  contains, Any, Bool-cases, List-cases,
}
use mathlib.Core.List.{append-nil}
use hootifactory.Routing.{
  slash, trim_start, trim_end, trim_char, split_path, drop, path_prefixes, RepoRow, longest_mount,
  rest_of, resolve_norm, resolve_repository,
}
use hootifactory.Routing.Paths.{Below, prefixes_iff}

abbrev pub IsRow : RepoRow → List RepoRow → Type 0
IsRow row rows = Any (λ r. r ≡ row) rows

-- The loop, from what is best so far.
longest-best :
    (best : RepoRow) (rows : List RepoRow)
    → (found : RepoRow) × (longest_mount (some best) rows ≡ some found)
      × ((found ≡ best) ⊎ IsRow found rows)
      × (length best.mount_path ≤ length found.mount_path)
      × ((row : RepoRow) → IsRow row rows → length row.mount_path ≤ length found.mount_path)
unfolding longest_mount
longest-best best [] = (best, refl, inl refl, omega arith, λ row i. absurd i)
longest-best best (row ∷ rows) =
    elim (Bool-cases (ltb (length best.mount_path) (length row.mount_path))) [
      | inl longer ↦
          let (found, e, from', above, most) = longest-best row rows in
          (
            found,
            rw longer e,
            elim from' [ inl here ↦ inr (inl (sym here)) | inr later ↦ inr (inr later) ],
            ground (arith, above),
            λ r i. elim i [
              | inl this ↦ subst (λ z. length z.mount_path ≤ length found.mount_path) this above
              | inr later ↦ most r later
            ],
          )
      | inr shorter ↦
          let (found, e, from', above, most) = longest-best best rows in
          (
            found,
            rw shorter e,
            elim from' [ inl here ↦ inl here | inr later ↦ inr (inr later) ],
            above,
            λ r i. elim i [
              | inl this ↦
                  let low : length row.mount_path ≤ length best.mount_path = ground arith in
                  subst (λ z. length z.mount_path ≤ length found.mount_path) this
                    (omega (arith, low, above))
              | inr later ↦ most r later
            ],
          )
    ]

kept_iff :
    (p : RepoRow → Bool) (row : RepoRow) (rows : List RepoRow)
    → IsRow row (keep p rows) ↔ (IsRow row rows × (p row ≡ true))
kept_iff p row [] = (λ i. absurd i, λ i. i.0)
kept_iff p row (r ∷ rows) =
    let rest = kept_iff p row rows in
    elim (Bool-cases (p r)) [
      | inl y ↦ rw y (
        λ i. elim i [
          | inl here ↦ (inl here, rw here at y)
          | inr later ↦ (let (a, b) = rest.0 later in (inr a, b))
        ],
        λ (i, q). elim i [ inl here ↦ inl here | inr later ↦ inr (rest.1 (later, q)) ],
      )
      | inr n ↦ rw n (
        λ i. (let (a, b) = rest.0 i in (inr a, b)),
        λ (i, q). elim i [
          | inl here ↦ absurd (let f : true ≡ false = sym q ∙ rw here at n in cc)
          | inr later ↦ rest.1 (later, q)
        ],
      )
    ]

drop-append : (m t : Text) → drop (length m) (m ++ t) ≡ t
drop-append [] t = refl
drop-append (c ∷ m) t = drop-append m t

-- The rest of a path behind the mount path it stands below: one slash and no more before it.
abbrev pub RestOf : Text → Text → Text → Type 0
RestOf norm mount rest =
    ((norm ≡ mount) × (rest ≡ slash ∷ []))
    ⊎ ((tail : Text) × (norm ≡ mount ++ (slash ∷ tail)) × (rest ≡ slash ∷ trim_start slash tail))

rest_of-RestOf :
    (norm : Text) (best : RepoRow)
    → Below best.mount_path norm
    → RestOf norm best.mount_path (rest_of norm best)
unfolding trim_start
rest_of-RestOf norm best (inl whole) =
    let e : drop (length best.mount_path) norm ≡ [] =
      rw whole (rw (append-nil best.mount_path) at (drop-append best.mount_path [])) in
    inl (whole, rw e refl)
rest_of-RestOf norm best (inr (tail, cut)) =
    let e : drop (length best.mount_path) norm ≡ slash ∷ tail =
      rw cut (drop-append best.mount_path (slash ∷ tail)) in
    inr (tail, cut, rw e refl)

abbrev prefixes_of : Text → RepoRow → Bool
prefixes_of norm row =
    contains (path_prefixes (length (split_path norm)) (split_path norm)) row.mount_path

-- No row is below, or the best one is found.
norm-cases :
    (repositories : List RepoRow) (norm : Text)
    → ((resolve_norm repositories norm ≡ none)
        × ((row : RepoRow) → IsRow row repositories → Below row.mount_path norm → ⊥))
      ⊎ ((best : RepoRow) × (resolve_norm repositories norm ≡ some (best, rest_of norm best))
          × IsRow best repositories
          × Below best.mount_path norm
          × ((row : RepoRow)
              → IsRow row repositories
              → Below row.mount_path norm
              → length row.mount_path ≤ length best.mount_path))
unfolding resolve_norm longest_mount
norm-cases repositories norm = elim (List-cases (keep (prefixes_of norm) repositories)) [
  | inl nothing ↦ inl (
    rw (nothing, resolve_norm) refl,
    λ row i below. rw nothing at (
        (kept_iff (prefixes_of norm) row repositories).1
          (i, (prefixes_iff norm row.mount_path).1 below)),
  )
  | inr (first, others, kept) ↦
      let (best, e, from', above, most) = longest-best first others in
      let among : IsRow best (first ∷ others) = elim from' [
        | inl here ↦ inl (sym here)
        | inr later ↦ inr later
      ] in
      let (row, matches) = (kept_iff (prefixes_of norm) best repositories).0 (rw kept among) in
      inr (
        best,
        rw (kept, resolve_norm, e) refl,
        row,
        (prefixes_iff norm best.mount_path).0 matches,
        λ r i below.
            elim (rw kept at (
              (kept_iff (prefixes_of norm) r repositories).1
                (i, (prefixes_iff norm r.mount_path).1 below))) [
                  | inl here ↦ subst (λ z. length z.mount_path ≤ length best.mount_path) here above
                  | inr later ↦ most r later
                ],
      )
]

-- A repository that is found is one of the repositories, the path with no slashes around it is its
-- mount path or stands below it, no repository of which that holds has a longer mount path, and the
-- rest is what stands behind the mount path, after one slash.
pub longest_mount_found :
    (repositories : List RepoRow) (pathname : Text) (best : RepoRow) (rest : Text)
    → resolve_repository repositories pathname ≡ some (best, rest)
    → IsRow best repositories
      × RestOf (trim_char pathname slash) best.mount_path rest
      × ((row : RepoRow)
          → IsRow row repositories
          → Below row.mount_path (trim_char pathname slash)
          → length row.mount_path ≤ length best.mount_path)
unfolding resolve_repository
longest_mount_found repositories pathname best rest h =
    let norm = trim_char pathname slash in
    elim (Bool-cases (norm == [])) [
      | inl empty ↦ absurd (let f : none ≡ some (best, rest) = rw empty at h in cc)
      | inr more ↦ elim (norm-cases repositories norm) [
        | inl (missing, out) ↦
            absurd (let f : none ≡ some (best, rest) = rw (more, missing) at h in cc)
        | inr (found, e, row, below, most) ↦
            let f : some (found, rest_of norm found) ≡ some (best, rest) = rw (more, e) at h in
            let b : found ≡ best = cc f in
            let r : rest_of norm found ≡ rest = cc f in
            rw (← r, ← b) (row, rest_of-RestOf norm found below, most)
      ]
    ]

-- What `trim_char` cuts off.
abbrev pub Slashes : Text → Type 0
Slashes s = All (λ c. c ≡ slash) s

trim_start-Slashes : (a s : Text) → Slashes a → trim_start slash (a ++ s) ≡ trim_start slash s
unfolding trim_start
trim_start-Slashes [] s h = refl
trim_start-Slashes (c ∷ a) s (is, h) =
    let same : (c == slash) ≡ true = (nat_beq_iff c slash).1 is in
    rw same (trim_start-Slashes a s h)

trim_end-Slashes : (b : Text) → Slashes b → trim_end slash b ≡ []
unfolding trim_end
trim_end-Slashes [] h = refl
trim_end-Slashes (c ∷ b) (is, h) =
    let same : (c == slash) ≡ true = (nat_beq_iff c slash).1 is in
    rw (trim_end-Slashes b h, same) refl

apart_from : (c : ℕ) → c ≢ slash → (c == slash) ≡ false
apart_from c h = elim (Bool-cases (c == slash)) [
  | inl y ↦ absurd (h ((nat_beq_iff c slash).0 y))
  | inr n ↦ n
]

trim_end-core :
    (core b : Text)
    → ((first : Text) → core ≢ first ++ (slash ∷ []))
    → Slashes b
    → trim_end slash (core ++ b) ≡ core
unfolding trim_end
trim_end-core [] b ends h = trim_end-Slashes b h
trim_end-core (c ∷ []) b ends h =
    let other : (c == slash) ≡ false = apart_from c (λ e. ends [] (rw e refl)) in
    rw (trim_end-Slashes b h, other) refl
trim_end-core (c ∷ d ∷ s) b ends h =
    let rest : trim_end slash ((d ∷ s) ++ b) ≡ d ∷ s =
      trim_end-core (d ∷ s) b (λ first e. ends (c ∷ first) (ap (λ x. c ∷ x) e)) h in
    rw rest refl

-- Slashes around a text that neither starts nor ends with one are what is cut off.
trim_char_lem :
    (a core b : Text)
    → Slashes a
    → Slashes b
    → ((tail : Text) → core ≢ slash ∷ tail)
    → ((first : Text) → core ≢ first ++ (slash ∷ []))
    → trim_char (a ++ (core ++ b)) slash ≡ core
unfolding trim_char trim_start trim_end
trim_char_lem a [] b before after starts ends =
    let all : trim_start slash b ≡ [] = rw (append-nil b) at (trim_start-Slashes b [] after) in
    rw (trim_start-Slashes a b before, all) refl
trim_char_lem a (c ∷ s) b before after starts ends =
    let other : (c == slash) ≡ false = apart_from c (λ e. starts s (rw e refl)) in
    rw (trim_start-Slashes a ((c ∷ s) ++ b) before, other) (trim_end-core (c ∷ s) b ends after)

-- With the slashes around a path taken off, no repository is found exactly when nothing is left, or
-- what is left stands below the mount path of no repository.
pub unrouted_iff :
    (repositories : List RepoRow) (a core b : Text)
    → Slashes a
    → Slashes b
    → ((tail : Text) → core ≢ slash ∷ tail)
    → ((first : Text) → core ≢ first ++ (slash ∷ []))
    → (resolve_repository repositories (a ++ (core ++ b)) ≡ none)
      ↔ ((core ≡ []) ⊎ ((row : RepoRow) → IsRow row repositories → Below row.mount_path core → ⊥))
unfolding resolve_repository
unrouted_iff repositories a core b before after starts ends =
    rw (trim_char_lem a core b before after starts ends) (elim (Bool-cases (core == [])) [
      | inl empty ↦ rw empty (λ h. inl ((text_eq.equals_iff core []).0 empty), λ h. refl)
      | inr more ↦ elim (norm-cases repositories core) [
        | inl (missing, out) ↦ rw (more, missing) (λ h. inr out, λ h. refl)
        | inr (found, e, row, below, most) ↦
            rw (more, e)
              (
                λ h. absurd (let f : some (found, rest_of core found) ≡ none = h in cc),
                λ h. absurd (elim h [
                  | inl empty ↦
                      let f : false ≡ true = sym more ∙ (text_eq.equals_iff core []).1 empty in cc
                  | inr out ↦ out found row below
                ]),
              )
      ]
    ])
