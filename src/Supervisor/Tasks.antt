-- ===== src/Supervisor/Tasks.antt =====
-- Whom `reallocate` gives a path or a slot (supervisor.py).
use swarmsim.Trajectory.{Vector3}
use swarmsim.Planning.Plans.{has_part}
use swarmsim.Supervisor.Messages.{
  slotted, assigned, hand_over-messages, assigned-append, slotted-append,
}
use swarmsim.Supervisor.Reallocate.{
  retarget_slots, relieve, relieve_all, replacement, hand_over, charged, reallocate, hand_path,
  must_go,
}
use swarmsim.Dict.{lookup, Dict}
use swarmsim.Float.{Float}
use swarmsim.Supervisor.State.{Mission, Supervisor, add_id, plan_ids}
use swarmsim.Base.{
  some, true, false, inl, inr, [], ◌∷◌, String, Bool, contains, arith, List, ◌≡◌, ◌||◌,
  Option-cases, ◌⊎◌, Distinct, Bool-cases, eq_refl, eq_iff, ◌==◌, contains-append,
}
use swarmsim.Supervisor.Guarantees.{
  IsValid, pass, waiting, reallocated, reallocate-some, close_pass-messages,
}
use swarmsim.Supervisor.Reallocation.{Waiting, Turn-Waiting}
use swarmsim.Supervisor.Relief.{
  Turn, stays, drops, goes, relieve-Turn, Turn-IsSound, IsSound, replacement_lem, contains-add_id,
}

module _ {F : Type 0} where
  -- A drone has, or had, a part in the mission.
  abbrev took_part : Mission F → String → Bool
  took_part m k = has_part m.plan k || contains k m.retired

  -- What is asked of a drone that takes over a task.
  pub record TakesOver ⦃f : Float F⦄ (s : Supervisor F) (m : Mission F) (k : String) : Type 0 where
    pub of_fleet : contains k s.drones ≡ true
    pub full : charged s k ≡ true
    pub outside : has_part m.plan k ≡ false
    pub not_retired : contains k m.retired ≡ false

  retarget_slots_reach :
      (mission gone r d : String) (o : Vector3 F) (followers : Dict (String × Vector3 F))
      → lookup d followers ≡ some (gone, o)
      → contains d (slotted (retarget_slots mission gone r followers)) ≡ true
  unfolding lookup retarget_slots slotted
  retarget_slots_reach mission gone r d o [] e = absurd (cc)
  retarget_slots_reach mission gone r d o ((k, (leader, p)) ∷ rest) e = ground (
    arith,
    retarget_slots_reach mission gone r d o rest,
    eq_iff k d,
    eq_iff d k,
    eq_refl d,
    eq_refl gone,
    eq_refl leader,
  )

module _ {F : Type 0} ⦃f : Float F⦄ where
  replacement-TakesOver :
      (s : Supervisor F) (m : Mission F) (r : String) → replacement s m ≡ some r → TakesOver s m r
  replacement-TakesOver s m r e =
      let (a, b, c, d, _) = replacement_lem s m r e in
      record { of_fleet = a; full = b; outside = c; not_retired = d }

  relieve-assigned :
      (s : Supervisor F) (m : Mission F) (d k : String)
      → contains k (assigned (relieve s m d).1) ≡ true
      → TakesOver s m k
  unfolding relieve assigned
  relieve-assigned s m d k h = elim (Option-cases (replacement s m)) [
    | inl e ↦ absurd (ground arith)
    | inr (r, e) ↦
        let m₁ = record m { retired = add_id d m.retired } in
        let (_, a, _) = hand_over-messages m₁ d r in
        let same : r ≡ k = a k (ground arith) in rw (← same) (replacement-TakesOver s m r e)
  ]

  relieve-slotted :
      (s : Supervisor F) (m : Mission F) (d k : String)
      → contains k (slotted (relieve s m d).1) ≡ true
      → (TakesOver s m k) ⊎ (has_part m.plan k ≡ true)
  unfolding relieve slotted
  relieve-slotted s m d k h = elim (Option-cases (replacement s m)) [
    | inl e ↦ absurd (ground arith)
    | inr (r, e) ↦
        let m₁ = record m { retired = add_id d m.retired } in
        let (_, _, b) = hand_over-messages m₁ d r in
        elim (b k (ground arith)) [
          | inl same ↦ inl (rw (← same) (replacement-TakesOver s m r e))
          | inr there ↦ inr (ground arith)
        ]
  ]

  -- A drone that takes over after a turn could have before it.
  TakesOver-before :
      (s : Supervisor F) (m m' : Mission F) (d k : String)
      → Turn s m d m'
      → TakesOver s m' k
      → TakesOver s m k
  TakesOver-before s m m' d k (stays _ e) t = rw e at t
  TakesOver-before s m m' d k (drops _ e) t =
      let t' = rw e at t in
      record {
        of_fleet = t.of_fleet;
        full = t.full;
        outside = t'.outside;
        not_retired = t'.not_retired;
      }
  TakesOver-before s m m' d k (goes r _ _ moved _ _ out) t = record {
    of_fleet = t.of_fleet;
    full = t.full;
    outside =
        ground (arith, moved.parts k, t.outside, t.not_retired, out, contains-add_id d k m.retired);
    not_retired = ground (arith, t.not_retired, out, contains-add_id d k m.retired);
  }

  Turn-part_before :
      (s : Supervisor F) (m m' : Mission F) (d k : String)
      → Turn s m d m'
      → has_part m'.plan k ≡ true
      → TakesOver s m k ⊎ (has_part m.plan k ≡ true)
  Turn-part_before s m m' d k (stays _ e) h = inr (rw e at h)
  Turn-part_before s m m' d k (drops _ e) h = inr (let h' = rw e at h in h')
  Turn-part_before s m m' d k (goes r _ e moved _ _ _) h = elim (Bool-cases (r == k)) [
    | inl same ↦ let i = (eq_iff r k).0 same in inl (rw (← i) (replacement-TakesOver s m r e))
    | inr other ↦ inr (ground (arith, moved.parts k))
  ]

  relieve_all-assigned :
      (s : Supervisor F) (ds : List String) (m : Mission F) (k : String)
      → IsSound m
      → Distinct ds
      → Waiting m ds
      → contains k (assigned (relieve_all s ds m).1) ≡ true
      → TakesOver s m k
  unfolding relieve_all
  relieve_all-assigned s [] m k v d w h = absurd (unfold assigned in (cc))
  relieve_all-assigned s (d ∷ ds) m k v (fresh, dd) w h =
      let m₁ = (relieve s m d).0 in
      let there : has_part m.plan d ≡ true = w d (ground (arith, eq_refl d)) in
      let turn = relieve-Turn s m d v there in
      elim (Bool-cases (contains k (assigned (relieve s m d).1))) [
        | inl now ↦ relieve-assigned s m d k now
        | inr later ↦ TakesOver-before s m m₁ d k turn (
            relieve_all-assigned s ds m₁ k (Turn-IsSound s m m₁ d v there turn) dd
              (Turn-Waiting s m m₁ d ds fresh w turn)
              (ground (
                arith,
                assigned-append (relieve s m d).1 (relieve_all s ds m₁).1,
                contains-append k (assigned (relieve s m d).1) (assigned (relieve_all s ds m₁).1),
              )))
      ]

  relieve_all-slotted :
      (s : Supervisor F) (ds : List String) (m : Mission F) (k : String)
      → IsSound m
      → Distinct ds
      → Waiting m ds
      → contains k (slotted (relieve_all s ds m).1) ≡ true
      → TakesOver s m k ⊎ (has_part m.plan k ≡ true)
  unfolding relieve_all
  relieve_all-slotted s [] m k v d w h = absurd (unfold slotted in (cc))
  relieve_all-slotted s (d ∷ ds) m k v (fresh, dd) w h =
      let m₁ = (relieve s m d).0 in
      let there : has_part m.plan d ≡ true = w d (ground (arith, eq_refl d)) in
      let turn = relieve-Turn s m d v there in
      elim (Bool-cases (contains k (slotted (relieve s m d).1))) [
        | inl now ↦ relieve-slotted s m d k now
        | inr later ↦
            elim (relieve_all-slotted s ds m₁ k (Turn-IsSound s m m₁ d v there turn) dd
              (Turn-Waiting s m m₁ d ds fresh w turn)
              (ground (
                arith,
                slotted-append (relieve s m d).1 (relieve_all s ds m₁).1,
                contains-append k (slotted (relieve s m d).1) (slotted (relieve_all s ds m₁).1),
              ))) [
                | inl t ↦ inl (TakesOver-before s m m₁ d k turn t)
                | inr part ↦ Turn-part_before s m m₁ d k turn part
              ]
      ]

  -- Who is given a path by `reallocate` is of the fleet, is known to be at or above the battery
  -- threshold, and has no part in the mission and never had one. Who is given a slot is such a
  -- drone too, or has a part in the mission already.
  pub reallocate_tasks_fit :
      (s : Supervisor F) (m : Mission F) (k : String)
      → IsValid s
      → s.mission ≡ some m
      → (contains k (assigned (reallocate s).1) ≡ true → TakesOver s m k)
        × (contains k (slotted (reallocate s).1) ≡ true
            → TakesOver s m k ⊎ (has_part m.plan k ≡ true))
  reallocate_tasks_fit s m k v e =
      let (w, d) = pass s m v e in
      let actions = (relieve_all s (plan_ids m.plan) m).1 in
      let (_, a, b) = close_pass-messages s (reallocated s m) actions in
      rw (reallocate-some s m e, a, b)
        (
          relieve_all-assigned s (plan_ids m.plan) m k w d (waiting m),
          relieve_all-slotted s (plan_ids m.plan) m k w d (waiting m),
        )

  -- When a leader is replaced, every drone that follows it in the plan is sent a new slot: also
  -- one that is itself low, and was sent home before with nobody to take over.
  pub relieve_reslots :
      (s : Supervisor F) (m : Mission F) (gone r d : String) (path : List (Vector3 F))
      (o : Vector3 F)
      → must_go s m gone ≡ true
      → replacement s m ≡ some r
      → lookup gone (m.plan).paths ≡ some path
      → lookup d (m.plan).followers ≡ some (gone, o)
      → contains d (slotted (relieve s m gone).1) ≡ true
  unfolding relieve hand_over hand_path slotted
  relieve_reslots s m gone r d path o must e lead follow =
      ground (arith, retarget_slots_reach m.mission_id gone r d o (m.plan).followers follow)
