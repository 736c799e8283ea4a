-- ===== src/Supervisor/HandOver.antt =====
-- The plan that a hand-over of a path or of a slot leaves (supervisor.py `_hand_over`).
use Prim.Native.Nat.{min}
use swarmsim.Trajectory.{Vector3}
use swarmsim.Planning.Plans.{IsFlyable, size, has_part, HasPath, LedBy}
use swarmsim.Supervisor.State.{Mission}
use swarmsim.Supervisor.Reallocate.{
  retarget, rest_of, hand_path, flown_so_far, hand_slot, hand_over,
}
use swarmsim.Dict.{
  keys, lookup, contains-keys, erase-Distinct, insert, erase, keys-insert, keys-erase,
  insert-Distinct, values-insert, values-erase, values-lookup, length-insert_new, length-erase,
  Dict,
}
use swarmsim.Planning.{MissionPlan}
use swarmsim.Base.{
  some, true, false, refl, [], ◌∷◌, String, List, ℕ, ◌≡◌, ◌<◌, length, ◌==◌, arith, ◌||◌,
  length-drop, contains, not, ◌&&◌, eq_iff, ap, All, ◌-◌, if◌then◌else◌, eq_refl, inl, inr,
  Option-cases,
}

module _ {F : Type 0} where
  -- `after` is a plan that can be flown, in which `new` stands where `gone` stood.
  pub record Replaces (before : MissionPlan F) (gone new : String) (after : MissionPlan F)
      : Type 0 where
    pub flyable : IsFlyable after
    pub same_size : size after ≡ size before
    pub parts :
        (k : String) → has_part after k ≡ (new == k || (not (gone == k) && has_part before k))

  keys-retarget :
      (gone r : String) (followers : Dict (String × Vector3 F))
      → keys (retarget gone r followers) ≡ keys followers
  unfolding keys retarget
  keys-retarget gone r [] = refl
  keys-retarget gone r ((k, (leader, offset)) ∷ rest) =
      ap (λ (ks : List String). k ∷ ks) (keys-retarget gone r rest)

  retarget-led :
      (gone r : String) (paths paths' : Dict (List (Vector3 F)))
      (followers : Dict (String × Vector3 F))
      → ((k : String)
          → contains k (keys paths') ≡ (r == k || (not (gone == k) && contains k (keys paths))))
      → All (λ e. LedBy paths e.1) followers
      → All (λ e. LedBy paths' e.1) (retarget gone r followers)
  unfolding retarget
  retarget-led gone r paths paths' [] move h = tt
  retarget-led gone r paths paths' ((k, (leader, offset)) ∷ rest) move (l, h) =
      (led, retarget-led gone r paths paths' rest move h)
    where
      led : contains (if leader == gone then r else leader) (keys paths') ≡ true
      led = ground (arith, move r, move leader, eq_refl r, eq_iff leader gone, eq_iff gone leader)

  length-rest_of :
      (path : List (Vector3 F)) (start : ℕ) → 0 < length path → 0 < length (rest_of path start)
  unfolding rest_of
  length-rest_of path start h = omega (arith, length-drop (min start (length path - 1)) path)

  pub hand_path-Replaces :
      (m : Mission F) (gone r : String) (path : List (Vector3 F))
      → IsFlyable m.plan
      → lookup gone (m.plan).paths ≡ some path
      → has_part m.plan r ≡ false
      → Replaces m.plan gone r (hand_path m gone r path).0.plan
  unfolding hand_path
  hand_path-Replaces m gone r path v e free =
      let paths = (m.plan).paths in
      let rest = rest_of path (flown_so_far m gone) in
      let same = keys-retarget gone r (m.plan).followers in
      let there : contains gone (keys paths) ≡ true = ground (arith, contains-keys gone paths) in
      let dp = erase-Distinct gone paths v.distinct_paths in
      let move : (k : String)
          → contains k (keys (insert r rest (erase gone paths)))
            ≡ (r == k || (not (gone == k) && contains k (keys paths))) =
        λ k. ground (
          arith,
          keys-insert r k rest (erase gone paths),
          keys-erase gone k paths v.distinct_paths,
        ) in
      record {
        flyable = record {
          distinct_paths = insert-Distinct r rest (erase gone paths) dp;
          distinct_followers = rw same v.distinct_followers;
          apart = λ k h. rw same (ground (arith, move k, v.apart k, eq_iff r k));
          nonempty =
              values-insert HasPath r rest (erase gone paths)
                (values-erase HasPath gone paths v.nonempty)
                (length-rest_of path (flown_so_far m gone)
                  (values-lookup HasPath gone path paths v.nonempty e));
          led =
              retarget-led gone r paths (insert r rest (erase gone paths)) (m.plan).followers move
                v.led;
        };
        same_size = rw same (
            omega (
              arith,
              length-insert_new r rest (erase gone paths)
                  (ground (arith, keys-erase gone r paths v.distinct_paths)),
              length-erase gone paths there,
            ));
        parts = λ k. rw same (ground (arith, move k, v.apart gone there, eq_iff gone k));
      }

  pub hand_slot-Replaces :
      (m : Mission F) (gone r : String) (place : String × Vector3 F)
      → IsFlyable m.plan
      → lookup gone (m.plan).followers ≡ some place
      → has_part m.plan r ≡ false
      → Replaces m.plan gone r (hand_slot m gone r place).0.plan
  unfolding hand_slot
  hand_slot-Replaces m gone r (leader, offset) v e free =
      let followers = (m.plan).followers in
      let there : contains gone (keys followers) ≡ true =
        ground (arith, contains-keys gone followers) in
      let df = erase-Distinct gone followers v.distinct_followers in
      let move : (k : String)
          → contains k (keys (insert r (leader, offset) (erase gone followers)))
            ≡ (r == k || (not (gone == k) && contains k (keys followers))) =
        λ k. ground (
          arith,
          keys-insert r k (leader, offset) (erase gone followers),
          keys-erase gone k followers v.distinct_followers,
        ) in
      record {
        flyable = record {
          distinct_paths = v.distinct_paths;
          distinct_followers = insert-Distinct r (leader, offset) (erase gone followers) df;
          apart = λ k h. ground (arith, move k, v.apart k, eq_iff r k);
          nonempty = v.nonempty;
          led =
              values-insert (LedBy (m.plan).paths) r (leader, offset) (erase gone followers)
                (values-erase (LedBy (m.plan).paths) gone followers v.led)
                (values-lookup (LedBy (m.plan).paths) gone (leader, offset) followers v.led e);
        };
        same_size = omega (
          arith,
          length-insert_new r (leader, offset) (erase gone followers)
              (ground (arith, keys-erase gone r followers v.distinct_followers)),
          length-erase gone followers there,
        );
        parts = λ k. ground (arith, move k, v.apart gone, eq_iff gone k);
      }

  pub hand_over-Replaces :
      (m : Mission F) (gone r : String)
      → IsFlyable m.plan
      → has_part m.plan gone ≡ true
      → has_part m.plan r ≡ false
      → Replaces m.plan gone r (hand_over m gone r).0.plan
  unfolding hand_over
  hand_over-Replaces m gone r v there free = elim (Option-cases (lookup gone (m.plan).paths)) [
    | inr (path, e) ↦ rw (e, hand_over) (hand_path-Replaces m gone r path v e free)
    | inl no_path ↦ elim (Option-cases (lookup gone (m.plan).followers)) [
      | inr (place, e) ↦ rw (no_path, e, hand_over) (hand_slot-Replaces m gone r place v e free)
      | inl no_place ↦
          absurd (
            ground
              (arith, contains-keys gone (m.plan).paths, contains-keys gone (m.plan).followers))
    ]
  ]

  -- What a hand-over leaves alone.
  pub hand_over_rest :
      (m : Mission F) (gone r : String)
      → let m' = (hand_over m gone r).0 in
        (m'.mission_id ≡ m.mission_id)
        × (m'.progress ≡ m.progress)
        × (m'.retired ≡ m.retired)
        × (m'.dropped ≡ m.dropped)
        × (m'.plan.mission_id ≡ (m.plan).mission_id)
  unfolding hand_over hand_path hand_slot
  hand_over_rest m gone r = ground arith
