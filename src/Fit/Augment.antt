-- ===== src/Fit/Augment.antt =====
-- What a search for an augmenting path does to a matching (scenarios/fit.py).
use swarmsim.Base.{
  ◌≢◌, some-injective, none, some, true, false, [], ◌∷◌, zero, suc, ℕ, ◌<◌, List, Option, Bool, ◌≡◌,
  refl, sym, ap, ◌∙◌, inl, inr, ◌⊎◌, length, arith, Bool-cases, num_eq,
}
use swarmsim.Fit.{Matching, put, item, mark, hold}

module _ {ℓ} {A : Type ℓ} where
  pub length-put : (i : ℕ) (x : A) (xs : List A) → length (put i x xs) ≡ length xs
  length-put i x [] = refl
  length-put zero x (y ∷ ys) = refl
  length-put (suc i) x (y ∷ ys) = ap (λ n. suc n) (length-put i x ys)

  pub item-put_here :
      (default : A) (i : ℕ) (x : A) (xs : List A) → i < length xs → item default (put i x xs) i ≡ x
  item-put_here default i x [] h = absurd (omega (arith, h))
  item-put_here default zero x (y ∷ ys) h = refl
  item-put_here default (suc i) x (y ∷ ys) h = item-put_here default i x ys (omega (arith, h))

  pub item-put_there :
      (default : A) (i j : ℕ) (x : A) (xs : List A)
      → num_eq i j ≡ false
      → item default (put i x xs) j ≡ item default xs j
  item-put_there default i j x [] h = refl
  item-put_there default zero zero x (y ∷ ys) h = absurd (ground arith)
  item-put_there default zero (suc j) x (y ∷ ys) h = refl
  item-put_there default (suc i) zero x (y ∷ ys) h = refl
  item-put_there default (suc i) (suc j) x (y ∷ ys) h =
      item-put_there default i j x ys (ground arith)

  -- Places of a list that differ in what they hold are different places.
  item-differ :
      (default : A) (xs : List A) (i j : ℕ) {x y : A}
      → item default xs i ≡ x
      → item default xs j ≡ y
      → x ≢ y
      → num_eq i j ≡ false
  item-differ default xs i j p q n = elim (Bool-cases (num_eq i j)) [
    | inr apart ↦ apart
    | inl same ↦
        let k : i ≡ j = ground arith in absurd (n (sym p ∙ ap (λ c. item default xs c) k ∙ q))
  ]

-- The columns that no row holds.
abbrev pub nones : List (Option ℕ) → ℕ
nones [] = 0
nones (none ∷ rows) = suc (nones rows)
nones (some row ∷ rows) = nones rows

nones-put-none :
    (c row : ℕ) (rows : List (Option ℕ))
    → c < length rows
    → item none rows c ≡ none
    → suc (nones (put c (some row) rows)) ≡ nones rows
nones-put-none c row [] h e = absurd (omega (arith, h))
nones-put-none zero row (none ∷ rows) h e = refl
nones-put-none zero row (some r ∷ rows) h e = absurd (cc)
nones-put-none (suc c) row (none ∷ rows) h e =
    ap (λ n. suc n) (nones-put-none c row rows (omega (arith, h)) e)
nones-put-none (suc c) row (some r ∷ rows) h e = nones-put-none c row rows (omega (arith, h)) e

nones-put-some :
    (c row other : ℕ) (rows : List (Option ℕ))
    → item none rows c ≡ some other
    → nones (put c (some row) rows) ≡ nones rows
nones-put-some c row other [] e = refl
nones-put-some zero row other (none ∷ rows) e = absurd (cc)
nones-put-some zero row other (some r ∷ rows) e = refl
nones-put-some (suc c) row other (none ∷ rows) e =
    ap (λ n. suc n) (nones-put-some c row other rows e)
nones-put-some (suc c) row other (some r ∷ rows) e = nones-put-some c row other rows e

-- A column holds the row.
abbrev pub Held : ℕ → List (Option ℕ) → Type 0
Held row rows = (c : ℕ) × (item none rows c ≡ some row)

module _ (allowed : ℕ → ℕ → Bool) where
  -- Only allowed pairs are held.
  abbrev pub Allowed : List (Option ℕ) → Type 0
  Allowed rows = (c r : ℕ) → item none rows c ≡ some r → allowed r c ≡ true

  -- What the search for a row found.
  pub record Found (row : ℕ) (m m' : Matching) : Type 0 where
    -- Columns that were tried before keep their rows.
    pub kept : (c : ℕ) → item false m.seen c ≡ true → item none m'.row_of c ≡ item none m.row_of c
    pub held : (r : ℕ) → Held r m.row_of → Held r m'.row_of
    pub new : (c : ℕ) × (item none m'.row_of c ≡ some row) × (item false m.seen c ≡ false)
    pub fewer : suc (nones m'.row_of) ≡ nones m.row_of
    pub still_allowed : Allowed m.row_of → Allowed m'.row_of

  pub record Searched (row : ℕ) (m : Matching) (out : Matching × Bool) : Type 0 where
    pub rows_length : length (out.0).row_of ≡ length m.row_of
    pub seen_length : length (out.0).seen ≡ length m.seen
    pub seen_stays : (c : ℕ) → item false m.seen c ≡ true → item false (out.0).seen c ≡ true
    pub result :
        ((out.1 ≡ true) × Found row m out.0) ⊎ ((out.1 ≡ false) × ((out.0).row_of ≡ m.row_of))

  -- A row takes a column that was not tried, where each row has another column to keep.
  hold-Found :
      (row column : ℕ) (m m₁ : Matching)
      → column < length m₁.row_of
      → allowed row column ≡ true
      → item false m.seen column ≡ false
      → ((c : ℕ) → item false m.seen c ≡ true → item none m₁.row_of c ≡ item none m.row_of c)
      → ((r : ℕ)
          → Held r m.row_of
          → (c : ℕ) × (item none m₁.row_of c ≡ some r) × (num_eq column c ≡ false))
      → suc (nones (put column (some row) m₁.row_of)) ≡ nones m.row_of
      → (Allowed m.row_of → Allowed m₁.row_of)
      → Found row m (hold column row m₁)
  hold-Found row column m m₁ h fits unseen kept held fewer sound = record {
    kept = λ c s. item-put_there none column c (some row) m₁.row_of (apart c s) ∙ kept c s;
    held = λ r k.
        let (c, e, other) = held r k in
        (c, item-put_there none column c (some row) m₁.row_of other ∙ e);
    new = (column, item-put_here none column (some row) m₁.row_of h, unseen);
    fewer = fewer;
    still_allowed = λ before c r e. elim (Bool-cases (num_eq column c)) [
      | inr other ↦
          sound before c r (sym (item-put_there none column c (some row) m₁.row_of other) ∙ e)
      | inl same ↦
          let i : column ≡ c = ground arith in
          let it : some row ≡ some r =
            sym (item-put_here none column (some row) m₁.row_of h)
            ∙ ap (λ k. item none (put column (some row) m₁.row_of) k) i
            ∙ e in
          let j : row ≡ r = some-injective row r it in
          ap (λ k. allowed k c) (sym j) ∙ ap (λ k. allowed row k) (sym i) ∙ fits
    ];
  }
    where
      apart : (c : ℕ) → item false m.seen c ≡ true → num_eq column c ≡ false
      apart c s = item-differ false m.seen column c unseen s (λ e. absurd (cc))

  -- A column that no row holds is taken.
  pub take-Found :
      (row column : ℕ) (m : Matching)
      → column < length m.row_of
      → allowed row column ≡ true
      → item false m.seen column ≡ false
      → item none m.row_of column ≡ none
      → Found row m (hold column row (mark column m))
  take-Found row column m h fits unseen free =
      hold-Found row column m (mark column m) h fits unseen (λ c s. refl)
        (λ r k. (k.0, k.1, apart r k.0 k.1)) (nones-put-none column row m.row_of h free)
        (λ before. before)
    where
      apart : (r c : ℕ) → item none m.row_of c ≡ some r → num_eq column c ≡ false
      apart r c e = item-differ none m.row_of column c free e (λ q. absurd (cc))

  -- The row that held a column found another, and the column is taken.
  pub move-Found :
      (row column other : ℕ) (m m' : Matching)
      → column < length m'.row_of
      → column < length m.seen
      → allowed row column ≡ true
      → item false m.seen column ≡ false
      → item none m.row_of column ≡ some other
      → Found other (mark column m) m'
      → Found row m (hold column row m')
  move-Found row column other m m' h k fits unseen taken found =
      hold-Found row column m m' h fits unseen (λ c s. found.kept c (still c s)) held
        (ap (λ n. suc n) (nones-put-some column row other m'.row_of here) ∙ found.fewer)
        found.still_allowed
    where
      marked : item false (put column true m.seen) column ≡ true
      marked = item-put_here false column true m.seen k

      here : item none m'.row_of column ≡ some other
      here = found.kept column marked ∙ taken

      still : (c : ℕ) → item false m.seen c ≡ true → item false (put column true m.seen) c ≡ true
      still c s = elim (Bool-cases (num_eq column c)) [
        | inr apart ↦ item-put_there false column c true m.seen apart ∙ s
        | inl same ↦
            let i : column ≡ c = ground arith in
            ap (λ n. item false (put column true m.seen) n) (sym i) ∙ marked
      ]

      held :
          (r : ℕ)
          → Held r m.row_of
          → (c : ℕ) × (item none m'.row_of c ≡ some r) × (num_eq column c ≡ false)
      held r (c₀, e₀) = elim (Bool-cases (num_eq other r)) [
        | inl same ↦
            let i : other ≡ r = ground arith in
            let (c, e, fresh) = found.new in (c, e ∙ ap (λ n. some n) i, not_marked c fresh)
        | inr apart ↦ let (c, e) = found.held r (c₀, e₀) in (c, e, not_here r c apart e)
      ]
        where
          not_marked :
              (c : ℕ) → item false (put column true m.seen) c ≡ false → num_eq column c ≡ false
          not_marked c fresh =
              item-differ false (put column true m.seen) column c marked fresh (λ e. absurd (cc))

          not_here :
              (r c : ℕ)
              → num_eq other r ≡ false
              → item none m'.row_of c ≡ some r
              → num_eq column c ≡ false
          not_here r c apart e =
              item-differ none m'.row_of column c here e
                (λ q. let j = some-injective other r q in absurd (ground arith))
