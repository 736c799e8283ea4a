-- ===== src/Dict.antt =====
-- A Python dict keyed by texts, in insertion order: a list of entries with distinct keys.
use swarmsim.Base.{
  ◌≡◌, refl, not, ◌&&◌, ◌||◌, Option, none, some, List, [], ◌∷◌, arith, String, ◌==◌, eq_iff,
  if◌then◌else◌, is_some, contains, Distinct, true, false, inl, inr, suc, All, length, Bool-cases,
}

abbrev pub Dict {ℓ} : Type ℓ → Type ℓ
Dict V = List (String × V)

module _ {ℓ} {V : Type ℓ} where
  -- `d.get(k)`
  unfoldable pub lookup : String → Dict V → Option V
  lookup k [] = none
  lookup k ((j, v) ∷ d) = if j == k then some v else lookup k d

  -- `d[k] = v`: a new key goes last, an old one keeps its place.
  unfoldable pub insert : String → V → Dict V → Dict V
  insert k v [] = (k, v) ∷ []
  insert k v ((j, w) ∷ d) = if j == k then (j, v) ∷ d else (j, w) ∷ insert k v d

  -- `del d[k]`, and what `d.pop(k)` leaves.
  unfoldable pub erase : String → Dict V → Dict V
  erase k [] = []
  erase k ((j, w) ∷ d) = if j == k then d else (j, w) ∷ erase k d

  unfoldable pub keys : Dict V → List String
  keys [] = []
  keys ((k, v) ∷ d) = k ∷ keys d

  pub lookup-insert :
      (k j : String) (v : V) (d : Dict V)
      → lookup j (insert k v d) ≡ (if k == j then some v else lookup j d)
  unfolding lookup insert
  lookup-insert k j v [] = refl
  lookup-insert k j v ((i, w) ∷ d) =
      ground (arith, eq_iff k j, eq_iff i k, eq_iff i j, lookup-insert k j v d)

  -- `k in d`
  pub contains-keys : (k : String) (d : Dict V) → contains k (keys d) ≡ is_some (lookup k d)
  unfolding lookup keys
  contains-keys k [] = refl
  contains-keys k ((j, v) ∷ d) = ground (arith, contains-keys k d)

  pub keys-insert :
      (k j : String) (v : V) (d : Dict V)
      → contains j (keys (insert k v d)) ≡ (k == j || contains j (keys d))
  unfolding keys insert
  keys-insert k j v [] = ground arith
  keys-insert k j v ((i, w) ∷ d) =
      ground (arith, eq_iff k j, eq_iff i k, eq_iff i j, keys-insert k j v d)

  pub insert-Distinct :
      (k : String) (v : V) (d : Dict V) → Distinct (keys d) → Distinct (keys (insert k v d))
  unfolding keys insert
  insert-Distinct k v [] h = (refl, tt)
  insert-Distinct k v ((i, w) ∷ d) (fresh, h) =
      ground (arith, eq_iff k i, eq_iff i k, keys-insert k i v d, insert-Distinct k v d h)

  -- Where keys are distinct, an erased key is gone and no other is touched.
  pub lookup-erase :
      (k j : String) (d : Dict V)
      → Distinct (keys d)
      → lookup j (erase k d) ≡ (if k == j then none else lookup j d)
  unfolding lookup erase keys
  lookup-erase k j [] h = ground arith
  lookup-erase k j ((i, w) ∷ d) (fresh, h) = ground (
    arith,
    eq_iff k j,
    eq_iff i k,
    eq_iff i j,
    contains-keys i d,
    contains-keys j d,
    lookup-erase k j d h,
  )

  pub keys-erase :
      (k j : String) (d : Dict V)
      → Distinct (keys d)
      → contains j (keys (erase k d)) ≡ (not (k == j) && contains j (keys d))
  unfolding erase keys
  keys-erase k j [] h = ground arith
  keys-erase k j ((i, w) ∷ d) (fresh, h) =
      ground (arith, eq_iff k j, eq_iff i k, eq_iff i j, keys-erase k j d h)

  pub erase-Distinct : (k : String) (d : Dict V) → Distinct (keys d) → Distinct (keys (erase k d))
  unfolding erase keys
  erase-Distinct k [] h = tt
  erase-Distinct k ((i, w) ∷ d) (fresh, h) =
      ground (arith, keys-erase k i d h, erase-Distinct k d h)

  pub values-insert {κ} :
      (P : V → Type κ) (k : String) (v : V) (d : Dict V)
      → All (λ e. P e.1) d
      → P v
      → All (λ e. P e.1) (insert k v d)
  unfolding insert
  values-insert P k v [] h p = (p, tt)
  values-insert P k v ((i, w) ∷ d) (q, h) p = elim (Bool-cases (i == k)) [
    | inl same ↦ rw same (p, h)
    | inr other ↦ rw other (q, values-insert P k v d h p)
  ]

  pub values-erase {κ} :
      (P : V → Type κ) (k : String) (d : Dict V) → All (λ e. P e.1) d → All (λ e. P e.1) (erase k d)
  unfolding erase
  values-erase P k [] h = tt
  values-erase P k ((i, w) ∷ d) (q, h) = elim (Bool-cases (i == k)) [
    | inl same ↦ rw same h
    | inr other ↦ rw other (q, values-erase P k d h)
  ]

  -- A value found by its key is one of the values.
  pub values-lookup {κ} :
      (P : V → Type κ) (k : String) (v : V) (d : Dict V)
      → All (λ e. P e.1) d
      → lookup k d ≡ some v
      → P v
  unfolding lookup
  values-lookup P k v [] h e = absurd (cc)
  values-lookup P k v ((i, w) ∷ d) (q, h) e = elim (Bool-cases (i == k)) [
    | inl same ↦ let found : w ≡ v = ground arith in rw found at q
    | inr other ↦ values-lookup P k v d h (ground arith)
  ]

  pub length-insert_new :
      (k : String) (v : V) (d : Dict V)
      → contains k (keys d) ≡ false
      → length (keys (insert k v d)) ≡ suc (length (keys d))
  unfolding insert keys
  length-insert_new k v [] h = refl
  length-insert_new k v ((i, w) ∷ d) h = ground (arith, length-insert_new k v d)

  pub length-erase :
      (k : String) (d : Dict V)
      → contains k (keys d) ≡ true
      → suc (length (keys (erase k d))) ≡ length (keys d)
  unfolding erase keys
  length-erase k [] h = absurd (cc)
  length-erase k ((i, w) ∷ d) h = ground (arith, length-erase k d)
