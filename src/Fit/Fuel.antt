-- ===== src/Fit/Fuel.antt =====
-- A search tries each column once, so it ends (scenarios/fit.py).
use swarmsim.Base.{
  none, true, false, [], ◌∷◌, zero, suc, ℕ, ◌+◌, ◌-◌, ◌<◌, ◌≤◌, List, Bool, ◌≡◌, refl, ap, ◌∙◌, inl,
  inr, not, ◌&&◌, length, arith, Bool-cases, Option-cases,
}
use swarmsim.Fit.{Matching, put, item, mark, hold, columns, augment}
use swarmsim.Fit.Augment.{length-put, Searched}
use swarmsim.Fit.Search.{augment-Searched}

-- The columns that were not tried.
abbrev pub untried : List Bool → ℕ
untried [] = 0
untried (true ∷ seen) = untried seen
untried (false ∷ seen) = suc (untried seen)

untried-length : (seen : List Bool) → untried seen ≤ length seen
untried-length [] = omega arith
untried-length (true ∷ seen) = let h = untried-length seen in omega (arith, h)
untried-length (false ∷ seen) = let h = untried-length seen in omega (arith, h)

untried-put :
    (column : ℕ) (seen : List Bool)
    → column < length seen
    → item false seen column ≡ false
    → suc (untried (put column true seen)) ≡ untried seen
untried-put column [] h e = absurd (omega (arith, h))
untried-put zero (true ∷ seen) h e = absurd (cc)
untried-put zero (false ∷ seen) h e = refl
untried-put (suc column) (true ∷ seen) h e = untried-put column seen (omega (arith, h)) e
untried-put (suc column) (false ∷ seen) h e =
    ap (λ n. suc n) (untried-put column seen (omega (arith, h)) e)

untried-stays :
    (seen seen' : List Bool)
    → length seen' ≡ length seen
    → ((c : ℕ) → item false seen c ≡ true → item false seen' c ≡ true)
    → untried seen' ≤ untried seen
untried-stays [] [] l stays = omega arith
untried-stays [] (x ∷ seen') l stays = absurd (omega (arith, l))
untried-stays (x ∷ seen) [] l stays = absurd (omega (arith, l))
untried-stays (true ∷ seen) (true ∷ seen') l stays =
    untried-stays seen seen' (omega (arith, l)) (λ c. stays (suc c))
untried-stays (false ∷ seen) (true ∷ seen') l stays =
    let h = untried-stays seen seen' (omega (arith, l)) (λ c. stays (suc c)) in omega (arith, h)
untried-stays (true ∷ seen) (false ∷ seen') l stays = let e = stays 0 refl in absurd (cc)
untried-stays (false ∷ seen) (false ∷ seen') l stays =
    let h = untried-stays seen seen' (omega (arith, l)) (λ c. stays (suc c)) in omega (arith, h)

tried : (seen : List Bool) (c : ℕ) → c < length seen → untried seen ≡ 0 → item false seen c ≡ true
tried [] c h e = absurd (omega (arith, h))
tried (true ∷ seen) zero h e = refl
tried (true ∷ seen) (suc c) h e = tried seen c (omega (arith, h)) e
tried (false ∷ seen) c h e = absurd (omega (arith, e))

module _ (allowed : ℕ → ℕ → Bool) where
  -- Where every column was tried, none is found.
  columns-tried :
      (deeper : ℕ → Matching → Matching × Bool) (left column row : ℕ) (m : Matching)
      → column + left ≤ length m.seen
      → untried m.seen ≡ 0
      → columns allowed deeper left column row m ≡ (m, false)
  unfolding columns
  columns-tried deeper zero column row m h e = refl
  columns-tried deeper (suc left) column row m h e =
      let s = tried m.seen column (omega (arith, h)) e in
      let skip : (allowed row column && not (item false m.seen column)) ≡ false = ground arith in
      rw (skip, columns) (columns-tried deeper left (column + 1) row m (omega (arith, h)) e)

  -- The loop asks only for searches that have a column less to try.
  columns-agree :
      (size bound : ℕ) (deeper deeper' : ℕ → Matching → Matching × Bool)
      → ((row : ℕ) (m : Matching)
          → length m.row_of ≡ size
          → length m.seen ≡ size
          → Searched allowed row m (deeper row m))
      → ((row : ℕ) (m : Matching)
          → length m.row_of ≡ size
          → length m.seen ≡ size
          → untried m.seen < bound
          → deeper' row m ≡ deeper row m)
      → (left column row : ℕ) (m : Matching) → column + left ≤ size
      → length m.row_of ≡ size
      → length m.seen ≡ size
      → untried m.seen ≤ bound
      → columns allowed deeper' left column row m ≡ columns allowed deeper left column row m
  unfolding columns
  columns-agree size bound deeper deeper' searched same zero column row m h l l' u = refl
  columns-agree size bound deeper deeper' searched same (suc left) column row m h l l' u =
      elim (Bool-cases (allowed row column && not (item false m.seen column))) [
        | inr skip ↦
            rw (skip, columns)
              (columns-agree size bound deeper deeper' searched same left (column + 1) row m
                (omega (arith, h)) l l' u)
        | inl fits ↦
            let unseen : item false m.seen column ≡ false = ground arith in
            let k : column < length m.seen = omega (arith, h, l') in
            let marked : length (put column true m.seen) ≡ length m.seen =
              length-put column true m.seen in
            elim (Option-cases (item none m.row_of column)) [
              | inl free ↦ rw (fits, columns, free) refl
              | inr (other, taken) ↦
                  let s = searched other (mark column m) l (marked ∙ l') in
                  let fewer = untried-put column m.seen k unseen in
                  let less : untried (mark column m).seen < bound = omega (arith, fewer, u) in
                  let e = same other (mark column m) l (marked ∙ l') less in
                  let no_more : untried (deeper other (mark column m)).0.seen ≤ bound =
                    let n =
                      untried-stays (mark column m).seen (deeper other (mark column m)).0.seen
                        s.seen_length s.seen_stays in
                    omega (arith, n, less) in
                  elim (Bool-cases (deeper other (mark column m)).1) [
                    | inl did ↦
                        let did' : (deeper' other (mark column m)).1 ≡ true =
                          ap (λ p. p.1) e ∙ did in
                        rw (fits, columns, taken, did, did')
                          (ap (λ p. (hold column row p.0, true)) e)
                    | inr failed ↦
                        let failed' : (deeper' other (mark column m)).1 ≡ false =
                          ap (λ p. p.1) e ∙ failed in
                        rw (fits, columns, taken, failed, failed')
                          (ap (λ p. columns allowed deeper' left (column + 1) row p.0) e
                            ∙ columns-agree size bound deeper deeper' searched same left
                                (column + 1) row (deeper other (mark column m)).0 (omega (arith, h))
                                (s.rows_length ∙ l) (s.seen_length ∙ marked ∙ l') no_more)
                  ]
            ]
      ]

  more-augment :
      (fuel size row : ℕ) (m : Matching)
      → length m.row_of ≡ size
      → length m.seen ≡ size
      → untried m.seen ≤ fuel
      → augment allowed (suc fuel) size row m ≡ augment allowed fuel size row m
  unfolding augment
  more-augment zero size row m l l' u =
      columns-tried (augment allowed zero size) size 0 row m (omega (arith, l')) (omega (arith, u))
  more-augment (suc fuel) size row m l l' u =
      columns-agree size (suc fuel) (augment allowed fuel size) (augment allowed (suc fuel) size)
        (augment-Searched allowed fuel size)
        (λ row m l l' u. more-augment fuel size row m l l' (omega (arith, u))) size 0 row m
        (omega arith) l l' u

  deeper_yet :
      (more fuel size row : ℕ) (m : Matching)
      → fuel ≡ more + size
      → length m.row_of ≡ size
      → length m.seen ≡ size
      → augment allowed fuel size row m ≡ augment allowed size size row m
  deeper_yet zero fuel size row m e l l' = ap (λ n. augment allowed n size row m) (omega (arith, e))
  deeper_yet (suc more) zero size row m e l l' = absurd (omega (arith, e))
  deeper_yet (suc more) (suc fuel) size row m e l l' =
      let n = untried-length m.seen in
      more-augment fuel size row m l l' (omega (arith, n, l', e))
      ∙ deeper_yet more fuel size row m (omega (arith, e)) l l'

-- A search for an augmenting path goes no deeper than there are columns: on a matching with as many
-- columns as its size, more fuel than that gives the same result.
pub augment-ends :
    (allowed : ℕ → ℕ → Bool) (fuel size row : ℕ) (m : Matching)
    → length m.row_of ≡ size
    → length m.seen ≡ size
    → size ≤ fuel
    → augment allowed fuel size row m ≡ augment allowed size size row m
augment-ends allowed fuel size row m l l' h =
    deeper_yet allowed (fuel - size) fuel size row m (omega (arith, h)) l l'
