-- ===== src/Assertions/Separation.antt =====
-- What min_separation says of the drones of a trace.
use swarmsim.Base.{
  true, false, [], ◌∷◌, String, List, Bool, Option, ◌≡◌, ◌⊎◌, inl, inr, refl, sym, ◌∙◌, ◌&&◌, ◌==◌,
  All, arith, eq_iff, Bool-cases, length, num_eq, ◌<◌,
}
use swarmsim.Float.{Float, IsStrict}
use swarmsim.Fleet.{sort_by, insert_sorted}
use swarmsim.Trajectory.{distance_to}
use swarmsim.Assertions.{DroneSample, Frame, Trace, keep_frames}
use swarmsim.Assertions.Distances.{
  Closest, note_pair, measure_from, measure_pairs, measure_frames, airborne_in, in_window,
  breaches_of, closest_in, separation_outcome, min_separation,
}

All-map {ℓ} :
    {A : Type ℓ} {P Q : A → Type 0} (xs : List A) → ((x : A) → P x → Q x) → All P xs → All Q xs
All-map [] f h = tt
All-map (x ∷ xs) f (here, h) = (f x here, All-map xs f h)

-- Every one of a list with every one after it.
abbrev pub Pairs {ℓ} : {A : Type ℓ} → (A → A → Type 0) → List A → Type 0
Pairs R [] = Unit
Pairs R (x ∷ xs) = All (R x) xs × Pairs R xs

Pairs-map {ℓ} :
    {A : Type ℓ} {R S : A → A → Type 0} (xs : List A)
    → ((x y : A) → R x y → S x y)
    → Pairs R xs
    → Pairs S xs
Pairs-map [] f h = tt
Pairs-map (x ∷ xs) f (here, h) = (All-map xs (f x) here, Pairs-map xs f h)

module _ {F : Type 0} ⦃f : Float F⦄ where
  -- An entry for two drones that is not above a distance.
  abbrev Covered : String → String → F → List (Closest F) → Type 0
  Covered x y d [] = true ≡ false
  Covered x y d (k ∷ ks) =
      ((k.first ≡ x) × (k.second ≡ y) × (f.lt d k.distance ≡ false)) ⊎ Covered x y d ks

  abbrev Seen : List (Closest F) → DroneSample F → DroneSample F → Type 0
  Seen ks a b = Covered a.drone_id b.drone_id (distance_to a.position b.position) ks

module _ {F : Type 0} ⦃f : Float F⦄ (law : IsStrict f) where
  not_closer : (d c k : F) → f.lt c k ≡ true → f.lt d k ≡ false → f.lt d c ≡ false
  not_closer d c k closer far = elim (Bool-cases (f.lt d c)) [
    | inr no_less ↦ no_less
    | inl less ↦ absurd (ground (arith, law.lt_trans d c k less closer))
  ]

  note_pair-keeps :
      (c : Closest F) (ks : List (Closest F)) (x y : String) (d : F)
      → Covered x y d ks
      → Covered x y d (note_pair c ks)
  unfolding note_pair
  note_pair-keeps c [] x y d h = absurd (cc)
  note_pair-keeps c (k ∷ ks) x y d h =
      elim (Bool-cases (c.first == k.first && c.second == k.second)) [
        | inr other ↦
            rw (other)
              (elim h [ inl here ↦ inl here | inr later ↦ inr (note_pair-keeps c ks x y d later) ])
        | inl same ↦ elim h [
          | inr later ↦ rw (same) (inr later)
          | inl (i, j, far) ↦ elim (Bool-cases (f.lt c.distance k.distance)) [
            | inr farther ↦ rw (same, farther) (inl (i, j, far))
            | inl closer ↦
                rw (same, closer)
                  (inl (
                    (eq_iff c.first k.first).0 (ground arith) ∙ i,
                    (eq_iff c.second k.second).0 (ground arith) ∙ j,
                    not_closer d c.distance k.distance closer far,
                  ))
          ]
        ]
      ]

  note_pair-new :
      (c : Closest F) (ks : List (Closest F)) → Covered c.first c.second c.distance (note_pair c ks)
  unfolding note_pair
  note_pair-new c [] = inl (refl, refl, law.lt_irrefl c.distance)
  note_pair-new c (k ∷ ks) = elim (Bool-cases (c.first == k.first && c.second == k.second)) [
    | inr other ↦ rw (other) (inr (note_pair-new c ks))
    | inl same ↦ elim (Bool-cases (f.lt c.distance k.distance)) [
      | inl closer ↦ rw (same, closer) (inl (refl, refl, law.lt_irrefl c.distance))
      | inr farther ↦
          rw (same, farther)
            (inl (
              sym ((eq_iff c.first k.first).0 (ground arith)),
              sym ((eq_iff c.second k.second).0 (ground arith)),
              farther,
            ))
    ]
  ]

  measure_from-keeps :
      (t : F) (a : DroneSample F) (ss : List (DroneSample F)) (ks : List (Closest F)) (x y : String)
      (d : F)
      → Covered x y d ks
      → Covered x y d (measure_from t a ss ks)
  unfolding measure_from
  measure_from-keeps t a [] ks x y d h = h
  measure_from-keeps t a (b ∷ ss) ks x y d h =
      measure_from-keeps t a ss _ x y d (note_pair-keeps _ ks x y d h)

  measure_pairs-keeps :
      (t : F) (ss : List (DroneSample F)) (ks : List (Closest F)) (x y : String) (d : F)
      → Covered x y d ks
      → Covered x y d (measure_pairs t ss ks)
  unfolding measure_pairs
  measure_pairs-keeps t [] ks x y d h = h
  measure_pairs-keeps t (a ∷ ss) ks x y d h =
      measure_pairs-keeps t ss (measure_from t a ss ks) x y d (measure_from-keeps t a ss ks x y d h)

  measure_frames-keeps :
      (frames : List (Frame F)) (ks : List (Closest F)) (x y : String) (d : F)
      → Covered x y d ks
      → Covered x y d (measure_frames frames ks)
  unfolding measure_frames
  measure_frames-keeps [] ks x y d h = h
  measure_frames-keeps (frame ∷ frames) ks x y d h =
      measure_frames-keeps frames (measure_pairs frame.t (airborne_in frame.drones) ks) x y d
        (measure_pairs-keeps frame.t (airborne_in frame.drones) ks x y d h)

  measure_from-Seen :
      (t : F) (a : DroneSample F) (ss : List (DroneSample F)) (ks : List (Closest F))
      → All (Seen (measure_from t a ss ks) a) ss
  unfolding measure_from
  measure_from-Seen t a [] ks = tt
  measure_from-Seen t a (b ∷ ss) ks =
      let c : Closest F = record {
        first = a.drone_id;
        second = b.drone_id;
        distance = distance_to a.position b.position;
        time = t;
      } in
      (
        measure_from-keeps t a ss (note_pair c ks) a.drone_id b.drone_id
            (distance_to a.position b.position) (note_pair-new c ks),
        measure_from-Seen t a ss (note_pair c ks),
      )

  measure_pairs-Seen :
      (t : F) (ss : List (DroneSample F)) (ks : List (Closest F))
      → Pairs (Seen (measure_pairs t ss ks)) ss
  unfolding measure_pairs
  measure_pairs-Seen t [] ks = tt
  measure_pairs-Seen t (a ∷ ss) ks =
      let ks' = measure_from t a ss ks in
      (
        All-map ss
            (λ b h.
              measure_pairs-keeps t ss ks' a.drone_id b.drone_id (distance_to a.position b.position)
                h)
            (measure_from-Seen t a ss ks),
        measure_pairs-Seen t ss ks',
      )

  -- Every two drones that are airborne in a frame are covered.
  measure_frames-Seen :
      (frames : List (Frame F)) (ks : List (Closest F))
      → All (λ frame. Pairs (Seen (measure_frames frames ks)) (airborne_in frame.drones)) frames
  unfolding measure_frames
  measure_frames-Seen [] ks = tt
  measure_frames-Seen (frame ∷ frames) ks =
      let ks' = measure_pairs frame.t (airborne_in frame.drones) ks in
      (
        Pairs-map (airborne_in frame.drones)
            (λ a b h.
              measure_frames-keeps frames ks' a.drone_id b.drone_id
                (distance_to a.position b.position) h)
            (measure_pairs-Seen frame.t (airborne_in frame.drones) ks),
        measure_frames-Seen frames ks',
      )

module _ {ℓ} {A : Type ℓ} (before : A → A → Bool) (P : A → Type 0) where
  inserted : (x : A) (ys : List A) → All P (insert_sorted before x ys) → P x × All P ys
  unfolding insert_sorted
  inserted x [] h = h
  inserted x (y ∷ ys) h = elim (Bool-cases (before x y)) [
    | inl early ↦ rw (early) at h
    | inr late ↦
        let (here, rest) = rw (late) at h in
        let (it, others) = inserted x ys rest in (it, (here, others))
  ]

  unsorted : (xs : List A) → All P (sort_by before xs) → All P xs
  unfolding sort_by
  unsorted [] h = tt
  unsorted (x ∷ xs) h =
      let (here, rest) = inserted x (sort_by before xs) h in (here, unsorted xs rest)

module _ {F : Type 0} ⦃f : Float F⦄ where
  none_below :
      (limit : F) (cs : List (Closest F))
      → num_eq (length (breaches_of limit cs)) 0 ≡ true
      → All (λ (c : Closest F). f.lt c.distance limit ≡ false) cs
  unfolding breaches_of
  none_below limit [] h = tt
  none_below limit (c ∷ cs) h = elim (Bool-cases (f.lt c.distance limit)) [
    | inl below ↦ absurd (ground (arith, h, below))
    | inr above ↦ (above, none_below limit cs (rw (above) at h))
  ]

  all_above :
      (limit : F) (cs : List (Closest F))
      → (separation_outcome limit cs).passed ≡ true
      → (0 < length cs) × All (λ (c : Closest F). f.lt c.distance limit ≡ false) cs
  unfolding separation_outcome
  all_above limit [] h = absurd (cc)
  all_above limit (c ∷ cs) h = (
    omega arith,
    unsorted (λ (a b : Closest F). f.le a.time b.time)
        (λ (e : Closest F). f.lt e.distance limit ≡ false) (c ∷ cs)
        (none_below limit (sort_by (λ (a b : Closest F). f.le a.time b.time) (c ∷ cs)) h),
  )

  -- A pair whose entry is a number and not below the limit is not below it either.
  apart :
      (law : IsStrict f) (limit d : F) (x y : String) (ks : List (Closest F))
      → All (λ (c : Closest F). f.is_nan c.distance ≡ false) ks
      → All (λ (c : Closest F). f.lt c.distance limit ≡ false) ks
      → Covered x y d ks
      → f.lt d limit ≡ false
  apart law limit d x y [] n h c = absurd (cc)
  apart law limit d x y (k ∷ ks) (number, n) (above, h) (inr later) =
      apart law limit d x y ks n h later
  apart law limit d x y (k ∷ ks) (number, n) (above, h) (inl (i, j, far)) =
      elim (Bool-cases (f.lt d limit)) [
        | inr no_less ↦ no_less
        | inl less ↦ absurd (ground (arith, law.lt_between d k.distance limit number less far))
      ]

  -- Where the check on separation passes and the closest distances that it measured are numbers, it
  -- measured some, and in every frame of its window no two drones that were airborne were closer than
  -- the limit. That `<` is transitive and irreflexive, and total among numbers, is all that is
  -- assumed of the floats.
  pub min_separation-Apart :
      (trace : Trace F) (limit start : F) (end : Option F)
      → IsStrict f
      → All (λ (c : Closest F). f.is_nan c.distance ≡ false) (closest_in trace start end)
      → (min_separation trace limit start end).passed ≡ true
      → (0 < length (closest_in trace start end))
        × All
            (λ (frame : Frame F).
              Pairs
                (λ (a b : DroneSample F). f.lt (distance_to a.position b.position) limit ≡ false)
                (airborne_in frame.drones))
            (keep_frames (in_window start end) trace.frames)
  unfolding min_separation
  min_separation-Apart trace limit start end law numbers h =
      let closest = closest_in trace start end in
      let frames = keep_frames (in_window start end) trace.frames in
      let (some_measured, above) = all_above limit closest h in
      (
        some_measured,
        All-map frames
            (λ frame. Pairs-map (airborne_in frame.drones) (λ a b.
              apart law limit (distance_to a.position b.position) a.drone_id b.drone_id closest
                numbers above))
            (measure_frames-Seen law frames []),
      )
