-- ===== src/QueryModel/Occurrences.antt =====
-- QueryAxis.js: how often a configuration occurs on an axis, and what the operations do to that.
use huey.Base.{
  ℕ, zero, suc, ◌+◌, ◌≤◌, ◌≡◌, refl, ap, ◌∙◌, true, Option, none, some, List, [], ◌∷◌, arith,
  length, if◌then◌else◌, Option-cases, Bool-cases, inl, inr, get_elem?,
}
use huey.QueryModel.Item.{Item, ℤ, pos, negsuc, matches, matches-same, key}
use huey.QueryModel.Axis.{find_index, insert_at, delete_at, target_index, sync_from}

pub target_index-le : (index : Option ℤ) (count : ℕ) → target_index index count ≤ count
unfolding target_index
target_index-le none count = omega arith
target_index-le (some (negsuc n)) count = omega arith
target_index-le (some (pos n)) count = ground arith

module _ {V : Type 0} where
  -- The number of items that a configuration matches.
  unfoldable pub occurrences : Item V → List (Item V) → ℕ
  occurrences config [] = 0
  occurrences config (item ∷ items) =
      (if matches config item then 1 else 0) + occurrences config items

  pub occurrences-insert_at :
      (c item : Item V) (i : ℕ) (items : List (Item V))
      → occurrences c (insert_at i item items)
        ≡ (if matches c item then 1 else 0) + occurrences c items
  unfolding occurrences insert_at
  occurrences-insert_at c item zero items = refl
  occurrences-insert_at c item (suc i) [] = refl
  occurrences-insert_at c item (suc i) (first ∷ items) =
      omega (arith, occurrences-insert_at c item i items)

  -- What is found matches, stands at the place that is given, and counts once.
  pub find_index-delete_at :
      (c d : Item V) (items : List (Item V)) (i : ℕ) (item : Item V)
      → find_index d items ≡ some (i, item)
      → (matches d item ≡ true)
        × (get_elem? items i ≡ some item)
        × (occurrences c (delete_at i items) + (if matches c item then 1 else 0)
            ≡ occurrences c items)
  unfolding find_index occurrences delete_at
  find_index-delete_at c d [] i item h = cc
  find_index-delete_at c d (first ∷ items) i item h = elim (Bool-cases (matches d first)) [
    | inl e ↦
        let at : i ≡ 0 = ground arith in
        let it : first ≡ item = ground arith in rw at (ground arith, ap some it, ground arith)
    | inr e ↦ elim (Option-cases (find_index d items)) [
      | inl f ↦ cc
      | inr ((j, found), f) ↦
          let at : i ≡ suc j = ground arith in
          let it : found ≡ item = ground arith in
          let (m, g, o) =
            find_index-delete_at c d items j item (f ∙ ap (λ (x : Item V). some (j, x)) it) in
          rw at (m, g, omega (arith, o))
    ]
  ]

  pub find_index-none :
      (c : Item V) (items : List (Item V)) → find_index c items ≡ none → occurrences c items ≡ 0
  unfolding find_index occurrences
  find_index-none c [] h = refl
  find_index-none c (item ∷ items) h = ground (arith, find_index-none c items)

  pub find_index-some :
      (c : Item V) (items : List (Item V)) (found : ℕ × Item V)
      → find_index c items ≡ some found
      → 1 ≤ occurrences c items
  unfolding find_index occurrences
  find_index-some c [] found h = cc
  find_index-some c (item ∷ items) found h = elim (Option-cases (find_index c items)) [
    | inl e ↦ ground arith
    | inr (f, e) ↦ ground (arith, find_index-some c items f e)
  ]

  -- Configurations with one key are found in the same place.
  pub find_index-same :
      (a b : Item V) (items : List (Item V))
      → key a ≡ key b
      → find_index a items ≡ find_index b items
  unfolding find_index
  find_index-same a b [] e = refl
  find_index-same a b (item ∷ items) e =
      rw (matches-same a b item e, find_index-same a b items e) refl

  pub occurrences-same :
      (a b : Item V) (items : List (Item V))
      → key a ≡ key b
      → occurrences a items ≡ occurrences b items
  unfolding occurrences
  occurrences-same a b [] e = refl
  occurrences-same a b (item ∷ items) e =
      rw (matches-same a b item e, occurrences-same a b items e) refl

  -- A new index, or another axis, does not change what an item is.
  pub occurrences-sync_from :
      (c : Item V) (i : ℕ) (items : List (Item V))
      → occurrences c (sync_from i items) ≡ occurrences c items
  unfolding occurrences sync_from matches
  occurrences-sync_from c i [] = refl
  occurrences-sync_from c i (item ∷ items) = omega (arith, occurrences-sync_from c (suc i) items)

  pub get_elem?-insert_at :
      (item : Item V) (i : ℕ) (items : List (Item V))
      → i ≤ length items
      → get_elem? (insert_at i item items) i ≡ some item
  unfolding insert_at
  get_elem?-insert_at item zero items h = refl
  get_elem?-insert_at item (suc i) [] h = absurd (omega arith)
  get_elem?-insert_at item (suc i) (first ∷ items) h =
      get_elem?-insert_at item i items (omega arith)
