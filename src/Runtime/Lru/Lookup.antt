-- ===== src/Runtime/Lru/Lookup.antt =====
-- What is found in the entries of a map behind a `delete` and a `set`
-- (packages/core/src/runtime.ts).
use hootifactory.Prelude.{
  ◌≡◌, refl, sym, ◌∙◌, inl, inr, true, false, [], ◌∷◌, ◌++◌, none, some, ◌==◌, nat_eq, Comparable,
  if◌then◌else◌, Bool-cases,
}
use hootifactory.Runtime.Lru.{Entries, find_entry, delete_entry}

module _ {K V : Type 0} ⦃e : Comparable K⦄ where
  pub find-delete :
      (j k : K) (es : Entries K V)
      → find_entry k (delete_entry j es) ≡ (if j == k then none else find_entry k es)
  unfolding find_entry delete_entry
  find-delete j k [] = elim (Bool-cases (j == k)) [ inl y ↦ rw y refl | inr n ↦ rw n refl ]
  find-delete j k ((i, v) ∷ es) = elim (Bool-cases (i == j)) [
    | inl same ↦
        let ij : i ≡ j = (e.equals_iff i j).0 same in
        elim (Bool-cases (j == k)) [
          | inl y ↦ rw (same, find-delete j k es, y) refl
          | inr n ↦ rw (same, find-delete j k es, n, ij, n) refl
        ]
    | inr other ↦ elim (Bool-cases (i == k)) [
      | inl here ↦
          let ik : i ≡ k = (e.equals_iff i k).0 here in
          let apart : (j == k) ≡ false = elim (Bool-cases (j == k)) [
            | inr n ↦ n
            | inl y ↦
                let jk : j ≡ k = (e.equals_iff j k).0 y in
                let ij : (i == j) ≡ true = (e.equals_iff i j).1 (ik ∙ sym jk) in
                absurd (let f : true ≡ false = sym ij ∙ other in cc f)
          ] in
          rw (other, here, apart) refl
      | inr there ↦ rw (other, there) (find-delete j k es)
    ]
  ]

  find-append :
      (j k : K) (v : V) (es : Entries K V)
      → find_entry j es ≡ none
      → find_entry k (es ++ ((j, v) ∷ [])) ≡ (if j == k then some v else find_entry k es)
  unfolding find_entry
  find-append j k v [] h = refl
  find-append j k v ((i, w) ∷ es) h = elim (Bool-cases (i == j)) [
    | inl same ↦ absurd (let f : some w ≡ none = rw same at h in cc f)
    | inr other ↦ elim (Bool-cases (i == k)) [
      | inl here ↦
          let ik : i ≡ k = (e.equals_iff i k).0 here in
          let apart : (j == k) ≡ false = elim (Bool-cases (j == k)) [
            | inr n ↦ n
            | inl y ↦
                let jk : j ≡ k = (e.equals_iff j k).0 y in
                let ij : (i == j) ≡ true = (e.equals_iff i j).1 (ik ∙ sym jk) in
                absurd (let f : true ≡ false = sym ij ∙ other in cc f)
          ] in
          rw (here, apart) refl
      | inr there ↦ rw there (find-append j k v es (rw other at h))
    ]
  ]

  -- The map behind `set`.
  pub find-set :
      (j k : K) (v : V) (es : Entries K V)
      → find_entry k (delete_entry j es ++ ((j, v) ∷ []))
        ≡ (if j == k then some v else find_entry k es)
  find-set j k v es =
      let gone : find_entry j (delete_entry j es) ≡ none =
        rw (find-delete j j es, (e.equals_iff j j).1 refl) refl in
      elim (Bool-cases (j == k)) [
        | inl y ↦ rw (find-append j k v (delete_entry j es) gone, y) refl
        | inr n ↦ rw (find-append j k v (delete_entry j es) gone, n, find-delete j k es, n) refl
      ]
