-- ===== src/Supervisor/Guarantees.antt =====
-- The supervisor's invariant, and what `reallocate` guarantees of the mission in progress
-- (supervisor.py).
use swarmsim.Dict.{keys}
use swarmsim.Supervisor.Messages.{
  sent_home, sent_home-append, assigned, slotted, assigned-append, slotted-append,
}
use swarmsim.Fleet.Sorting.{sort_ids-Distinct, contains-sort_ids}
use swarmsim.Supervisor.Reallocation.{
  Waiting, relieve_all-IsSound, relieve_all-sent_home, relieve_all_idle, relieve_all_settles,
}
use swarmsim.Planning.Plans.{IsFlyable, size, has_part}
use swarmsim.Supervisor.Relief.{IsSound}
use swarmsim.Supervisor.Reallocate.{reallocate, must_go, relieve_all, close_pass}
use swarmsim.Planning.{MissionPlan}
use swarmsim.Float.{Float, IsOrdered}
use swarmsim.Supervisor.State.{Supervisor, plan_ids, Mission, low, finished, active_mission, Action}
use mathlib.Core.List.{append-nil}
use swarmsim.Base.{
  none, some, inl, inr, refl, [], ◌∷◌, Option, Distinct, String, ◌≡◌, contains, sym, Option-cases,
  ◌∙◌, keep, ◌++◌, not, contains-append, Distinct-append, ◌&&◌, arith, ap, List,
}

module _ {F : Type 0} where
  abbrev pub Sound : Option (Mission F) → Type 0
  Sound none = Unit
  Sound (some m) = IsSound m

  -- No drone is listed twice, and the mission in progress is sound.
  pub record IsValid (s : Supervisor F) : Type 0 where
    pub fleet : Distinct s.drones
    pub sound : Sound s.mission

  pub contains-plan_ids :
      (plan : MissionPlan F) (k : String) → contains k (plan_ids plan) ≡ has_part plan k
  unfolding plan_ids
  contains-plan_ids plan k =
      contains-sort_ids k (keys plan.paths ++ keys plan.followers)
      ∙ contains-append k (keys plan.paths) (keys plan.followers)

  pub plan_ids-Distinct : (plan : MissionPlan F) → IsFlyable plan → Distinct (plan_ids plan)
  unfolding plan_ids
  plan_ids-Distinct plan v = sort_ids-Distinct (keys plan.paths ++ keys plan.followers) (
      Distinct-append (keys plan.paths) (keys plan.followers) v.distinct_paths v.distinct_followers
        v.apart)

module _ {F : Type 0} ⦃f : Float F⦄ where
  -- The mission that `reallocate` leaves.
  abbrev pub reallocated : Supervisor F → Mission F → Mission F
  reallocated s m = (relieve_all s (plan_ids m.plan) m).0

  pub waiting : (m : Mission F) → Waiting m (plan_ids m.plan)
  waiting m k h = sym (contains-plan_ids m.plan k) ∙ h

  pub reallocate-some :
      (s : Supervisor F) (m : Mission F)
      → s.mission ≡ some m
      → reallocate s ≡ close_pass s (relieve_all s (plan_ids m.plan) m)
  unfolding reallocate
  reallocate-some s m e = ground arith

  pub reallocate-none : (s : Supervisor F) → s.mission ≡ none → reallocate s ≡ (s, [])
  unfolding reallocate
  reallocate-none s e = ground arith

  -- The message about the active mission sends nobody anywhere.
  pub close_pass-messages :
      (s : Supervisor F) (m : Mission F) (actions : List (Action F))
      → let sent = (close_pass s (m, actions)).1 in
        (sent_home sent ≡ sent_home actions)
        × (assigned sent ≡ assigned actions)
        × (slotted sent ≡ slotted actions)
  unfolding close_pass sent_home assigned slotted
  close_pass-messages s m [] = (refl, refl, refl)
  close_pass-messages s m (a ∷ rest) =
      let last : List (Action F) = active_mission (some m.mission_id) (plan_ids m.plan) ∷ [] in
      (
        sent_home-append (a ∷ rest) last ∙ append-nil (sent_home (a ∷ rest)),
        assigned-append (a ∷ rest) last ∙ append-nil (assigned (a ∷ rest)),
        slotted-append (a ∷ rest) last ∙ append-nil (slotted (a ∷ rest)),
      )

  -- The loop, on a sound mission.
  pub pass :
      (s : Supervisor F) (m : Mission F)
      → IsValid s
      → s.mission ≡ some m
      → IsSound m × Distinct (plan_ids m.plan)
  pass s m v e = let w : Sound (some m) = rw e at v.sound in (w, plan_ids-Distinct m.plan w.flyable)

  -- `reallocate` keeps the supervisor valid: the plan of the mission in progress can still be
  -- flown, by as many drones as before.
  pub reallocate-IsValid :
      (s : Supervisor F) (m : Mission F)
      → IsValid s
      → s.mission ≡ some m
      → IsValid (reallocate s).0
        × (m' : Mission F) × ((reallocate s).0.mission ≡ some m')
        × (size m'.plan ≡ size m.plan)
  unfolding close_pass
  reallocate-IsValid s m v e =
      let (w, d) = pass s m v e in
      let (w', n) = relieve_all-IsSound s (plan_ids m.plan) m w d (waiting m) in
      rw (reallocate-some s m e) (record { fleet = v.fleet; sound = w' }, reallocated s m, refl, n)

  -- Exactly these drones are sent home, in id order: those of the mission that are low, have not
  -- finished and were not sent home with nobody to take over before.
  pub reallocate-sent_home :
      (s : Supervisor F) (m : Mission F)
      → IsValid s
      → s.mission ≡ some m
      → sent_home (reallocate s).1
        ≡ keep
            (λ d. not (contains d m.dropped) && (low s d && not (finished m d)))
            (plan_ids m.plan)
  unfolding must_go
  reallocate-sent_home s m v e =
      let (w, d) = pass s m v e in
      rw (reallocate-some s m e) (
        (close_pass-messages s (reallocated s m) (relieve_all s (plan_ids m.plan) m).1).0
        ∙ relieve_all-sent_home s (plan_ids m.plan) m w d (waiting m))

  -- Nothing is left to do for a second call with the same reports: it sends nothing and changes
  -- nothing.
  pub reallocate_settles :
      (s : Supervisor F)
      → IsOrdered f
      → IsValid s
      → reallocate (reallocate s).0 ≡ ((reallocate s).0, [])
  unfolding close_pass
  reallocate_settles s ord v = elim (Option-cases s.mission) [
    | inl e ↦ rw (reallocate-none s e) (reallocate-none s e)
    | inr (m, e) ↦
        let (w, d) = pass s m v e in
        let m' = reallocated s m in
        let s' = record s { mission = some m' } in
        let idle = relieve_all_idle s' (plan_ids m'.plan) m' (λ k h.
          unfold must_go low in
          (relieve_all_settles s (plan_ids m.plan) m k ord w d (waiting m)
            (λ out there. absurd (ground (arith, contains-plan_ids m.plan k)))
            (sym (contains-plan_ids m'.plan k) ∙ h))) in
        rw (reallocate-some s m e) (reallocate-some s' m' refl ∙ ap (close_pass s') idle)
  ]
