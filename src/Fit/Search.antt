-- ===== src/Fit/Search.antt =====
-- A search for an augmenting path gives the row a column and no other row loses its own
-- (scenarios/fit.py).
use swarmsim.Base.{
  none, some, true, false, zero, suc, ℕ, ◌+◌, ◌<◌, ◌≤◌, List, Bool, ◌≡◌, refl, sym, ap, ◌∙◌, inl,
  inr, not, ◌&&◌, length, arith, Bool-cases, Option-cases, num_eq,
}
use swarmsim.Fit.{Matching, put, item, mark, hold, columns, augment}
use swarmsim.Fit.Augment.{
  length-put, nones, item-put_here, item-put_there, Found, Searched, take-Found, move-Found,
}

-- A search gave up and left the columns as they were.
given_up-Searched :
    (allowed : ℕ → ℕ → Bool) (row : ℕ) (m : Matching) → Searched allowed row m (m, false)
given_up-Searched allowed row m = record {
  rows_length = refl;
  seen_length = refl;
  seen_stays = λ c s. s;
  result = inr (refl, refl);
}

pub mark_stays :
    (column : ℕ) (seen : List Bool)
    → column < length seen
    → (c : ℕ) → item false seen c ≡ true
    → item false (put column true seen) c ≡ true
mark_stays column seen h c s = elim (Bool-cases (num_eq column c)) [
  | inr apart ↦ item-put_there false column c true seen apart ∙ s
  | inl same ↦
      let i : column ≡ c = ground arith in
      ap (λ n. item false (put column true seen) n) (sym i) ∙ item-put_here false column true seen h
]

module _ (allowed : ℕ → ℕ → Bool) where
  -- What was found after a failed attempt was found from the start.
  later-Searched :
      (row : ℕ) (m m₁ : Matching) (out : Matching × Bool)
      → length m₁.seen ≡ length m.seen
      → ((c : ℕ) → item false m.seen c ≡ true → item false m₁.seen c ≡ true)
      → m₁.row_of ≡ m.row_of
      → Searched allowed row m₁ out
      → Searched allowed row m out
  later-Searched row m m₁ out l stays same s = record {
    rows_length = s.rows_length ∙ ap length same;
    seen_length = s.seen_length ∙ l;
    seen_stays = λ c t. s.seen_stays c (stays c t);
    result = elim s.result [
      | inr (failed, unchanged) ↦ inr (failed, unchanged ∙ same)
      | inl (did, found) ↦ inl (
        did,
        record {
          kept = λ c t. found.kept c (stays c t) ∙ ap (λ rows. item none rows c) same;
          held = λ r k. found.held r (k.0, ap (λ rows. item none rows k.0) same ∙ k.1);
          new = (found.new.0, found.new.1, fresh found.new.0 found.new.2);
          fewer = found.fewer ∙ ap nones same;
          still_allowed = λ before.
              found.still_allowed
                (λ c r e. before c r (ap (λ rows. item none rows c) (sym same) ∙ e));
        },
      )
    ];
  }
    where
      fresh : (c : ℕ) → item false m₁.seen c ≡ false → item false m.seen c ≡ false
      fresh c f = elim (Bool-cases (item false m.seen c)) [
        | inr e ↦ e
        | inl e ↦ let t = stays c e in absurd (cc)
      ]

  took-Searched :
      (row column : ℕ) (m m₁ : Matching)
      → length m₁.row_of ≡ length m.row_of
      → length m₁.seen ≡ length m.seen
      → ((c : ℕ) → item false m.seen c ≡ true → item false m₁.seen c ≡ true)
      → Found allowed row m (hold column row m₁)
      → Searched allowed row m (hold column row m₁, true)
  took-Searched row column m m₁ l l' stays found = record {
    rows_length = length-put column (some row) m₁.row_of ∙ l;
    seen_length = l';
    seen_stays = stays;
    result = inl (refl, found);
  }

  module _ (size : ℕ) (deeper : ℕ → Matching → Matching × Bool)
      (deeper-Searched : (row : ℕ) (m : Matching)
        → length m.row_of ≡ size
        → length m.seen ≡ size
        → Searched allowed row m (deeper row m)) where
    columns-Searched :
        (left column row : ℕ) (m : Matching)
        → column + left ≤ size
        → length m.row_of ≡ size
        → length m.seen ≡ size
        → Searched allowed row m (columns allowed deeper left column row m)
    unfolding columns
    columns-Searched zero column row m h l l' = given_up-Searched allowed row m
    columns-Searched (suc left) column row m h l l' =
        elim (Bool-cases (allowed row column && not (item false m.seen column))) [
          | inr skip ↦
              rw (skip, columns) (columns-Searched left (column + 1) row m (omega (arith, h)) l l')
          | inl fits ↦
              let may : allowed row column ≡ true = ground arith in
              let unseen : item false m.seen column ≡ false = ground arith in
              let k : column < length m.seen = omega (arith, h, l') in
              let marked : length (put column true m.seen) ≡ length m.seen =
                length-put column true m.seen in
              elim (Option-cases (item none m.row_of column)) [
                | inl free ↦
                    rw (fits, columns, free)
                      (took-Searched row column m (mark column m) refl marked
                        (mark_stays column m.seen k)
                        (take-Found allowed row column m (omega (arith, h, l)) may unseen free))
                | inr (other, taken) ↦
                    let s = deeper-Searched other (mark column m) l (marked ∙ l') in
                    let stays : (c : ℕ)
                        → item false m.seen c ≡ true
                        → item false (deeper other (mark column m)).0.seen c ≡ true =
                      λ c t. s.seen_stays c (mark_stays column m.seen k c t) in
                    elim s.result [
                      | inl (did, found) ↦
                          rw (fits, columns, taken, did)
                            (took-Searched row column m (deeper other (mark column m)).0
                              s.rows_length (s.seen_length ∙ marked) stays
                              (move-Found allowed row column other m
                                (deeper other (mark column m)).0
                                (omega (arith, h, l, s.rows_length)) k may unseen taken found))
                      | inr (failed, unchanged) ↦
                          rw (fits, columns, taken, failed)
                            (later-Searched row m (deeper other (mark column m)).0 _
                              (s.seen_length ∙ marked) stays unchanged
                              (columns-Searched left (column + 1) row
                                (deeper other (mark column m)).0 (omega (arith, h))
                                (s.rows_length ∙ l) (s.seen_length ∙ marked ∙ l')))
                    ]
              ]
        ]

  -- A search from a row either gives it a column and leaves every other row one, or changes none.
  pub augment-Searched :
      (fuel size row : ℕ) (m : Matching)
      → length m.row_of ≡ size
      → length m.seen ≡ size
      → Searched allowed row m (augment allowed fuel size row m)
  unfolding augment
  augment-Searched zero size row m l l' = given_up-Searched allowed row m
  augment-Searched (suc fuel) size row m l l' =
      columns-Searched size (augment allowed fuel size) (augment-Searched fuel size) size 0 row m
        (omega arith) l l'
