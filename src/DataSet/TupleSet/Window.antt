-- ===== src/DataSet/TupleSet/Window.antt =====
-- TupleSet.js, the first loop of `getTuples`: which indices are fetched, and what is at hand.
use huey.Base.{
  ℕ, zero, suc, ◌+◌, ◌<◌, ◌≤◌, ◌≡◌, refl, sym, ◌≢◌, ap, true, ◌&&◌, Option, none, some, arith, ltb,
  leb, if◌then◌else◌, is_some, ◌∙◌, Option-cases, inl, inr,
}
use huey.Base.Sparse
use huey.Base.Sparse.{Sparse}
use huey.DataSet.TupleSet.{Tuple}
use huey.DataSet.TupleSet.Paging.{widen, scan}

-- `first` and `last` are missing, they lie in the range that was asked for, and every missing index
-- of the range lies between them.
pub record IsWindow {V : Type 0} (tuples : Sparse (Tuple V)) (from to first last : ℕ) : Type 0 where
  pub above : from ≤ first
  pub ordered : first ≤ last
  pub below : last < to
  pub first_missing : Sparse.get tuples first ≡ none
  pub last_missing : Sparse.get tuples last ≡ none
  pub covers : (j : ℕ) → from ≤ j → j < to → Sparse.get tuples j ≡ none → (first ≤ j) × (j ≤ last)

module _ {V : Type 0} (data_ : Sparse (Tuple V)) (offset : ℕ) where
  extend_missing :
      (k first last : ℕ)
      → IsWindow data_ offset k first last
      → Sparse.get data_ k ≡ none
      → IsWindow data_ offset (suc k) first k
  extend_missing k first last w e = record {
    above = w.above;
    ordered = omega (arith, w.ordered, w.below);
    below = omega arith;
    first_missing = w.first_missing;
    last_missing = e;
    covers = λ j low high h. ground (arith, w.covers j, w.ordered, w.below);
  }

  extend_cached :
      (k first last : ℕ) (t : Tuple V)
      → IsWindow data_ offset k first last
      → Sparse.get data_ k ≡ some t
      → IsWindow data_ offset (suc k) first last
  extend_cached k first last t w e = record {
    above = w.above;
    ordered = w.ordered;
    below = omega (arith, w.below);
    first_missing = w.first_missing;
    last_missing = w.last_missing;
    covers = λ j low high h. ground (arith, w.covers j);
  }

  scan_missing :
      (i n : ℕ) (window : Option (ℕ × ℕ)) (acc : Sparse (Tuple V))
      → Sparse.get data_ (offset + i) ≡ none
      → scan data_ offset i (suc n) window acc
        ≡ scan data_ offset (suc i) n (widen window (offset + i)) acc
  unfolding scan
  scan_missing i n window acc e = rw (e, scan)

  scan_cached :
      (i n : ℕ) (window : Option (ℕ × ℕ)) (acc : Sparse (Tuple V)) (t : Tuple V)
      → Sparse.get data_ (offset + i) ≡ some t
      → scan data_ offset i (suc n) window acc
        ≡ scan data_ offset (suc i) n window (Sparse.set acc i (some t))
  unfolding scan
  scan_cached i n window acc t e = rw (e, scan)

  widen_past : (k first last : ℕ) → last < k → widen (some (first, last)) k ≡ some (first, k)
  unfolding widen
  widen_past k first last h = ground arith

  -- The loop goes on from a window that covers what is missing so far.
  scan_on :
      (to i n first last : ℕ) (acc : Sparse (Tuple V))
      → offset + i + n ≡ to
      → IsWindow data_ offset (offset + i) first last
      → (l : ℕ) × ((scan data_ offset i n (some (first, last)) acc).0 ≡ some (first, l))
        × IsWindow data_ offset to first l
  unfolding scan
  scan_on to i zero first last acc e w =
      (last, refl, let e' : offset + i ≡ to = omega arith in rw (← e') w)
  scan_on to i (suc n) first last acc e w = elim (Option-cases (Sparse.get data_ (offset + i))) [
    | inl h ↦
        let w' : IsWindow data_ offset (offset + suc i) first (offset + i) =
          let s : offset + suc i ≡ suc (offset + i) = omega arith in
          rw s (extend_missing (offset + i) first last w h) in
        let (l, found, r) = scan_on to (suc i) n first (offset + i) acc (omega arith) w' in
        (
          l,
          ap (λ (p : Option (ℕ × ℕ) × Sparse (Tuple V)). p.0)
                (scan_missing i n (some (first, last)) acc h)
              ∙ rw (widen_past (offset + i) first last w.below) found,
          r,
        )
    | inr (t, h) ↦
        let w' : IsWindow data_ offset (offset + suc i) first last =
          let s : offset + suc i ≡ suc (offset + i) = omega arith in
          rw s (extend_cached (offset + i) first last t w h) in
        let (l, found, r) =
          scan_on to (suc i) n first last (Sparse.set acc i (some t)) (omega arith) w' in
        (
          l,
          ap (λ (p : Option (ℕ × ℕ) × Sparse (Tuple V)). p.0)
                (scan_cached i n (some (first, last)) acc t h)
              ∙ found,
          r,
        )
  ]

  first-IsWindow :
      (k : ℕ)
      → offset ≤ k
      → Sparse.get data_ k ≡ none
      → ((j : ℕ) → offset ≤ j → j < k → is_some (Sparse.get data_ j) ≡ true)
      → IsWindow data_ offset (suc k) k k
  first-IsWindow k above e cached = record {
    above = above;
    ordered = omega arith;
    below = omega arith;
    first_missing = e;
    last_missing = e;
    covers = λ j low high h. ground (arith, cached j);
  }

  -- When everything that the loop of `getTuples` has passed is cached, and it ends with a
  -- window to fetch, then the window begins and ends with a tuple that is not cached, lies
  -- inside the request, and covers every tuple of the request that is not cached.
  pub scan-IsWindow :
      (to i n : ℕ) (acc : Sparse (Tuple V))
      → offset + i + n ≡ to
      → ((j : ℕ) → offset ≤ j → j < offset + i → is_some (Sparse.get data_ j) ≡ true)
      → (first last : ℕ) → (scan data_ offset i n none acc).0 ≡ some (first, last)
      → IsWindow data_ offset to first last
  unfolding scan
  scan-IsWindow to i zero acc e cached first last h = cc
  scan-IsWindow to i (suc n) acc e cached first last h =
      elim (Option-cases (Sparse.get data_ (offset + i))) [
        | inl m ↦
            let s : offset + suc i ≡ suc (offset + i) = omega arith in
            let w : IsWindow data_ offset (offset + suc i) (offset + i) (offset + i) =
              rw s (first-IsWindow (offset + i) (omega arith) m cached) in
            let (l, found, r) =
              scan_on to (suc i) n (offset + i) (offset + i) acc (omega arith) w in
            let same =
              sym (
                ap (λ (p : Option (ℕ × ℕ) × Sparse (Tuple V)). p.0) (scan_missing i n none acc m)
                ∙ found)
              ∙ h in
            let e₁ : offset + i ≡ first = cc same in
            let e₂ : l ≡ last = cc same in rw (← e₁, ← e₂) r
        | inr (t, m) ↦
            scan-IsWindow to (suc i) n (Sparse.set acc i (some t)) (omega arith)
              (λ j low high. ground (arith, cached j)) first last
              (sym (
                  ap (λ (p : Option (ℕ × ℕ) × Sparse (Tuple V)). p.0)
                    (scan_cached i n none acc t m))
                ∙ h)
      ]

  scan_on_some :
      (i n : ℕ) (w : ℕ × ℕ) (acc : Sparse (Tuple V)) → (scan data_ offset i n (some w) acc).0 ≢ none
  unfolding scan widen
  scan_on_some i zero w acc h = cc
  scan_on_some i (suc n) (f, l) acc h = elim (Option-cases (Sparse.get data_ (offset + i))) [
    | inl m ↦ scan_on_some (suc i) n _ acc (
        sym (
          ap (λ (p : Option (ℕ × ℕ) × Sparse (Tuple V)). p.0)
            (scan_missing i n (some (f, l)) acc m))
        ∙ h)
    | inr (t, m) ↦
        scan_on_some (suc i) n (f, l) (Sparse.set acc i (some t))
          (sym (
              ap (λ (p : Option (ℕ × ℕ) × Sparse (Tuple V)). p.0)
                (scan_cached i n (some (f, l)) acc t m))
            ∙ h)
  ]

  -- With no window every index of the range is cached, and the tuples are those of the cache.
  pub scan_tuples :
      (i n : ℕ) (acc : Sparse (Tuple V))
      → (scan data_ offset i n none acc).0 ≡ none
      → (j : ℕ)
      → Sparse.get (scan data_ offset i n none acc).1 j
        ≡ (if leb i j && ltb j (i + n) then Sparse.get data_ (offset + j) else Sparse.get acc j)
  unfolding scan
  scan_tuples i zero acc h j = ground arith
  scan_tuples i (suc n) acc h j = elim (Option-cases (Sparse.get data_ (offset + i))) [
    | inl m ↦ absurd (
        scan_on_some (suc i) n (offset + i, offset + i) acc
          (sym (ap (λ (p : Option (ℕ × ℕ) × Sparse (Tuple V)). p.0) (scan_missing i n none acc m))
            ∙ h))
    | inr (t, m) ↦
        let e = scan_cached i n none acc t m in
        let ih =
          scan_tuples (suc i) n (Sparse.set acc i (some t))
            (sym (ap (λ (p : Option (ℕ × ℕ) × Sparse (Tuple V)). p.0) e) ∙ h) j in
        ap (λ (p : Option (ℕ × ℕ) × Sparse (Tuple V)). Sparse.get p.1 j) e
        ∙ ih
        ∙ ground (arith, Sparse.get-set acc i j (some t))
  ]

  pub scan_all :
      (i n : ℕ) (acc : Sparse (Tuple V))
      → (scan data_ offset i n none acc).0 ≡ none
      → (j : ℕ) → i ≤ j
      → j < i + n
      → is_some (Sparse.get data_ (offset + j)) ≡ true
  unfolding scan
  scan_all i zero acc h j low high = absurd (omega arith)
  scan_all i (suc n) acc h j low high = elim (Option-cases (Sparse.get data_ (offset + i))) [
    | inl m ↦ absurd (
        scan_on_some (suc i) n (offset + i, offset + i) acc
          (sym (ap (λ (p : Option (ℕ × ℕ) × Sparse (Tuple V)). p.0) (scan_missing i n none acc m))
            ∙ h))
    | inr (t, m) ↦ ground (
      arith,
      scan_all (suc i) n (Sparse.set acc i (some t))
          (sym (ap (λ (p : Option (ℕ × ℕ) × Sparse (Tuple V)). p.0) (scan_cached i n none acc t m))
            ∙ h)
          j,
    )
  ]
