-- ===== src/Fit/Matched.antt =====
-- The assignment a full matching gives (scenarios/fit.py).
use swarmsim.Base.{
  some-injective, none, some, true, false, [], ◌∷◌, zero, suc, ℕ, ◌+◌, ◌<◌, List, Option, Bool, ◌≡◌,
  refl, sym, ap, subst, ◌∙◌, inl, inr, ◌≢◌, ◌⊎◌, length, arith, Bool-cases, Option-cases, num_eq,
}
use swarmsim.Fit.{Matching, put, item, repeated, augment, match_rows, assign_rows, perfect_matching}
use swarmsim.Fit.Augment.{length-put, nones, item-put_here, item-put_there, Allowed, Held, Searched}
use swarmsim.Fit.Search.{augment-Searched}

length-repeated {ℓ} : {A : Type ℓ} → (x : A) (n : ℕ) → length (repeated x n) ≡ n
length-repeated x zero = refl
length-repeated x (suc n) = ap (λ k. suc k) (length-repeated x n)

none-repeated {ℓ} : {A : Type ℓ} → (n c : ℕ) → item {A = Option A} none (repeated none n) c ≡ none
none-repeated zero c = refl
none-repeated (suc n) zero = refl
none-repeated (suc n) (suc c) = none-repeated n c

nones-repeated : (n : ℕ) → nones (repeated none n) ≡ n
nones-repeated zero = refl
nones-repeated (suc n) = ap (λ k. suc k) (nones-repeated n)

held_below : (rows : List (Option ℕ)) (c r : ℕ) → item none rows c ≡ some r → c < length rows
held_below [] c r e = absurd (cc)
held_below (x ∷ rows) zero r e = omega arith
held_below (x ∷ rows) (suc c) r e = let h = held_below rows c r e in omega (arith, h)

-- Where every column is held, a row that is held gets a column that holds it.
record Assigned (row column : ℕ) (rows : List (Option ℕ)) (before after : List ℕ) : Type 0 where
  size : length after ≡ length before
  place :
      ((j : ℕ) × (item none rows j ≡ some row) × (item 0 after row ≡ column + j))
      ⊎ (((j : ℕ) → item none rows j ≢ some row) × (item 0 after row ≡ item 0 before row))

elsewhere :
    (r row : ℕ) (rows : List (Option ℕ))
    → num_eq r row ≡ false
    → ((j : ℕ) → item none rows j ≢ some row)
    → (j : ℕ) → item none (some r ∷ rows) j ≢ some row
elsewhere r row rows other nowhere zero e =
    let i : r ≡ row = some-injective r row e in absurd (ground arith)
elsewhere r row rows other nowhere (suc j) e = nowhere j e

assign_rows-Assigned :
    (row column : ℕ) (rows : List (Option ℕ)) (before : List ℕ)
    → nones rows ≡ 0
    → row < length before
    → Assigned row column rows before (assign_rows column rows before)
unfolding assign_rows
assign_rows-Assigned row column [] before h k = record {
  size = refl;
  place = inr (λ j e. absurd (cc), refl);
}
assign_rows-Assigned row column (none ∷ rows) before h k = absurd (omega (arith, h))
assign_rows-Assigned row column (some r ∷ rows) before h k =
    let l : length (put r column before) ≡ length before = length-put r column before in
    let rest =
      assign_rows-Assigned row (column + 1) rows (put r column before) h (omega (arith, l, k)) in
    record {
      size = rest.size ∙ l;
      place = elim rest.place [
        | inl (j, e, q) ↦ inl (suc j, e, omega (arith, q))
        | inr (nowhere, q) ↦ elim (Bool-cases (num_eq r row)) [
          | inl same ↦
              let i : r ≡ row = ground arith in
              let b : r < length before = omega (arith, i, k) in
              let here : item 0 (put r column before) row ≡ column =
                ap (λ n. item 0 (put r column before) n) (sym i)
                ∙ item-put_here 0 r column before b in
              inl (0, ap (λ n. some n) i, omega (arith, q, here))
          | inr other ↦
              inr
                (elsewhere r row rows other nowhere, q ∙ item-put_there 0 r row column before other)
        ]
      ];
    }

-- The rows before `row` have a column each, and the columns left are as many as the rows.
record Rows (allowed : ℕ → ℕ → Bool) (size row : ℕ) (rows : List (Option ℕ)) : Type 0 where
  covers : length rows ≡ size
  left : nones rows + row ≡ size
  held : (r : ℕ) → r < row → Held r rows
  fits : Allowed allowed rows

match_rows-Rows :
    (allowed : ℕ → ℕ → Bool) (left row size : ℕ) (rows rows' : List (Option ℕ))
    → Rows allowed size row rows
    → row + left ≡ size
    → match_rows allowed left row size rows ≡ some rows'
    → Rows allowed size size rows'
unfolding match_rows
match_rows-Rows allowed zero row size rows rows' so_far h e =
    let i : rows ≡ rows' = some-injective rows rows' e in
    let n : row ≡ size = omega (arith, h) in
    subst (λ x. Rows allowed size size x) i (subst (λ x. Rows allowed size x rows) n so_far)
match_rows-Rows allowed (suc left) row size rows rows' so_far h e = elim s.result [
  | inl (did, found) ↦
      match_rows-Rows allowed left (row + 1) size _ rows'
        (record {
          covers = s.rows_length ∙ so_far.covers;
          left = let f = found.fewer in let l = so_far.left in omega (arith, f, l);
          held = λ r k. elim (Bool-cases (num_eq row r)) [
            | inl same ↦ (found.new.0, found.new.1 ∙ ap (λ n. some n) (ground arith))
            | inr apart ↦ found.held r (so_far.held r (ground arith))
          ];
          fits = found.still_allowed so_far.fits;
        })
        (omega (arith, h)) (rw (did, match_rows) at e)
  | inr (failed, unchanged) ↦ absurd (let e' = rw (failed, match_rows) at e in cc)
]
  where
    m : Matching
    m = record { row_of = rows; seen = repeated false size }

    s : Searched allowed row m (augment allowed size size row m)
    s = augment-Searched allowed size size row m so_far.covers (length-repeated false size)

-- A column that holds the row the assignment gives it to.
record Placed (allowed : ℕ → ℕ → Bool) (size row : ℕ) (row_of : List (Option ℕ)) (a : List ℕ)
    : Type 0 where
  as_long : length a ≡ size
  within : item 0 a row < size
  holds : item none row_of (item 0 a row) ≡ some row
  fits : allowed row (item 0 a row) ≡ true

assign_rows-Placed :
    (allowed : ℕ → ℕ → Bool) (size row : ℕ) (row_of : List (Option ℕ))
    → Rows allowed size size row_of
    → row < size
    → Placed allowed size row row_of (assign_rows 0 row_of (repeated 0 size))
assign_rows-Placed allowed size row row_of m h =
    let l : length {A = ℕ} (repeated 0 size) ≡ size = length-repeated 0 size in
    let left = m.left in
    let full : nones row_of ≡ 0 = omega (arith, left) in
    let s = assign_rows-Assigned row 0 row_of (repeated 0 size) full (omega (arith, h, l)) in
    elim s.place [
      | inr (nowhere, q) ↦ let (c, e) = m.held row h in absurd (nowhere c e)
      | inl (j, e, q) ↦
          let b = held_below row_of j row e in
          let c = m.covers in
          let i : item 0 (assign_rows 0 row_of (repeated 0 size)) row ≡ j = omega (arith, q) in
          record {
            as_long = s.size ∙ l;
            within = omega (arith, i, b, c);
            holds = ap (λ n. item none row_of n) i ∙ e;
            fits = ap (λ n. allowed row n) i ∙ m.fits j row e;
          }
    ]

-- An assignment that _perfect_matching returns is as long as there are rows, and of two rows r and
-- s the one, r, gets a column that is one of them and that is allowed to it; the two get the same
-- column only where they are the same row.
pub perfect_matching-matches :
    (size : ℕ) (allowed : ℕ → ℕ → Bool) (a : List ℕ) (r s : ℕ)
    → perfect_matching size allowed ≡ some a
    → r < size
    → s < size
    → (length a ≡ size)
      × (item 0 a r < size)
      × (allowed r (item 0 a r) ≡ true)
      × (num_eq (item 0 a r) (item 0 a s) ≡ num_eq r s)
unfolding perfect_matching
perfect_matching-matches size allowed a r s e h k =
    elim (Option-cases (match_rows allowed size 0 size (repeated none size))) [
      | inl failed ↦ absurd (let e' = rw (failed, perfect_matching) at e in cc)
      | inr (row_of, found) ↦
          let m : Rows allowed size size row_of =
            match_rows-Rows allowed size 0 size (repeated none size) row_of
              (record {
                covers = length-repeated none size;
                left = let n = nones-repeated size in omega (arith, n);
                held = λ r k. absurd (omega (arith, k));
                fits = λ c r e. let n = none-repeated {A = ℕ} size c in absurd (cc);
              })
              (omega arith) found in
          let e' = rw (found, perfect_matching) at e in
          let i : assign_rows 0 row_of (repeated 0 size) ≡ a = some-injective _ a e' in
          let p : Placed allowed size r row_of a =
            subst (λ x. Placed allowed size r row_of x) i
              (assign_rows-Placed allowed size r row_of m h) in
          let q : Placed allowed size s row_of a =
            subst (λ x. Placed allowed size s row_of x) i
              (assign_rows-Placed allowed size s row_of m k) in
          (
            p.as_long,
            p.within,
            p.fits,
            elim (Bool-cases (num_eq r s)) [
              | inl same ↦
                  let i : r ≡ s = ground arith in
                  let n : item 0 a r ≡ item 0 a s = ap (λ n. item 0 a n) i in ground arith
              | inr apart ↦ elim (Bool-cases (num_eq (item 0 a r) (item 0 a s))) [
                | inr other ↦ other ∙ sym apart
                | inl one ↦
                    let n : item 0 a r ≡ item 0 a s = ground arith in
                    let t : some r ≡ some s =
                      sym p.holds ∙ ap (λ n. item none row_of n) n ∙ q.holds in
                    let t' : r ≡ s = some-injective r s t in absurd (ground arith)
              ]
            ],
          )
    ]
