-- ===== src/Supervisor/Messages.antt =====
-- Reading the supervisor's actions: who is sent home, and who is given a path or a slot.
use swarmsim.Trajectory.{Vector3}
use swarmsim.Dict.{keys, Dict}
use swarmsim.Supervisor.State.{
  Action, command_drone, assign, slot, Mission, active_mission, rejected, task_dropped,
}
use swarmsim.Supervisor.Reallocate.{retarget_slots, hand_over, hand_path, hand_slot}
use swarmsim.Base.{
  true, refl, [], ◌∷◌, List, String, ◌++◌, ◌≡◌, if◌then◌else◌, arith, ap, contains, ◌==◌, ◌⊎◌,
  eq_iff,
}

module _ {F : Type 0} where
  -- The drones that are commanded home.
  unfoldable pub sent_home : List (Action F) → List String
  sent_home [] = []
  sent_home (command_drone d name ∷ actions) =
      let rest = sent_home actions in if name == "rtl" then d ∷ rest else rest
  sent_home (_ ∷ actions) = sent_home actions

  -- The drones that are given a path.
  unfoldable pub assigned : List (Action F) → List String
  assigned [] = []
  assigned (assign d mission path ∷ actions) = d ∷ assigned actions
  assigned (_ ∷ actions) = assigned actions

  -- The drones that are given a slot.
  unfoldable pub slotted : List (Action F) → List String
  slotted [] = []
  slotted (slot d mission leader offset ∷ actions) = d ∷ slotted actions
  slotted (_ ∷ actions) = slotted actions

  pub sent_home-append :
      (xs ys : List (Action F)) → sent_home (xs ++ ys) ≡ sent_home xs ++ sent_home ys
  unfolding sent_home
  sent_home-append [] ys = refl
  sent_home-append (command_drone d name ∷ xs) ys = ground (arith, sent_home-append xs ys)
  sent_home-append (assign d m p ∷ xs) ys = sent_home-append xs ys
  sent_home-append (slot d m l o ∷ xs) ys = sent_home-append xs ys
  sent_home-append (active_mission m ds ∷ xs) ys = sent_home-append xs ys
  sent_home-append (rejected m r ∷ xs) ys = sent_home-append xs ys
  sent_home-append (task_dropped d m r ∷ xs) ys = sent_home-append xs ys

  pub assigned-append : (xs ys : List (Action F)) → assigned (xs ++ ys) ≡ assigned xs ++ assigned ys
  unfolding assigned
  assigned-append [] ys = refl
  assigned-append (command_drone d name ∷ xs) ys = assigned-append xs ys
  assigned-append (assign d m p ∷ xs) ys =
      ap (λ (rest : List String). d ∷ rest) (assigned-append xs ys)
  assigned-append (slot d m l o ∷ xs) ys = assigned-append xs ys
  assigned-append (active_mission m ds ∷ xs) ys = assigned-append xs ys
  assigned-append (rejected m r ∷ xs) ys = assigned-append xs ys
  assigned-append (task_dropped d m r ∷ xs) ys = assigned-append xs ys

  pub slotted-append : (xs ys : List (Action F)) → slotted (xs ++ ys) ≡ slotted xs ++ slotted ys
  unfolding slotted
  slotted-append [] ys = refl
  slotted-append (command_drone d name ∷ xs) ys = slotted-append xs ys
  slotted-append (assign d m p ∷ xs) ys = slotted-append xs ys
  slotted-append (slot d m l o ∷ xs) ys =
      ap (λ (rest : List String). d ∷ rest) (slotted-append xs ys)
  slotted-append (active_mission m ds ∷ xs) ys = slotted-append xs ys
  slotted-append (rejected m r ∷ xs) ys = slotted-append xs ys
  slotted-append (task_dropped d m r ∷ xs) ys = slotted-append xs ys

  -- The slots of a hand-over go to followers of the drone that leaves.
  pub retarget_slots-messages :
      (mission gone r : String) (followers : Dict (String × Vector3 F))
      → let actions = retarget_slots mission gone r followers in
        (sent_home actions ≡ [])
        × (assigned actions ≡ [])
        × ((k : String) → contains k (slotted actions) ≡ true → contains k (keys followers) ≡ true)
  unfolding retarget_slots sent_home assigned slotted keys
  retarget_slots-messages mission gone r [] = (refl, refl, λ k h. h)
  retarget_slots-messages mission gone r ((d, (leader, o)) ∷ rest) =
      let (a, b, c) = retarget_slots-messages mission gone r rest in
      (ground (arith, a), ground (arith, b), λ k h. ground (arith, c k))

  pub hand_over-messages :
      (m : Mission F) (gone r : String)
      → let actions = (hand_over m gone r).1 in
        (sent_home actions ≡ [])
        × ((k : String) → contains k (assigned actions) ≡ true → r ≡ k)
        × ((k : String)
            → contains k (slotted actions) ≡ true
            → (r ≡ k) ⊎ (contains k (keys (m.plan).followers) ≡ true))
  unfolding hand_over hand_path hand_slot sent_home assigned slotted
  hand_over-messages m gone r =
      let (a, b, c) = retarget_slots-messages m.mission_id gone r (m.plan).followers in
      (
        ground (arith, a),
        λ k h. ground (arith, b, eq_iff r k),
        λ k h. ground (arith, c k, eq_iff r k),
      )
