-- ===== src/Assertions/Travel.antt =====
-- scenarios/assertions.py: travel_after, how far drones get after an event of the scenario.
use swarmsim.Base.{true, none, some, [], ◌∷◌, String, List, Option, if◌then◌else◌, ◌&&◌, ◌==◌, keep}
use swarmsim.Errors.{Result, ok, ◌>>=◌}
use swarmsim.Float.{Float}
use swarmsim.Vehicle.{greater}
use swarmsim.Scenario.{
  Event, EventData, mission_event, command_event, battery_event, comms_loss_event,
}
use swarmsim.Suite.{AssertionOutcome, Violation}
use swarmsim.Assertions.{DroneSample, Frame, Trace, keep_frames, sample, judged, breach}
use swarmsim.Assertions.Distances.{in_window}

module _ {F : Type 0} where
  -- `event.kind`
  abbrev pub kind_of : EventData F → String
  kind_of (mission_event m) = "mission"
  kind_of (command_event c) = "command"
  kind_of (battery_event d p) = "battery"
  kind_of (comms_loss_event ds d) = "comms_loss"

  -- `times`
  unfoldable pub times_of : String → List (Event F) → List F
  times_of kind [] = []
  times_of kind (event ∷ events) =
      let rest = times_of kind events in
      if kind_of event.happens == kind then event.at ∷ rest else rest

  -- The drones to check: of the first frame, those airborne, or the one that is named.
  unfoldable pub starts_in : Option String → List (Frame F) → List (DroneSample F)
  starts_in named [] = []
  starts_in named (frame ∷ frames) =
      keep
        (λ (s : DroneSample F).
          s.airborne && elim named [ none ↦ true | some drone ↦ drone == s.drone_id ])
        frame.drones

module _ {F : Type 0} ⦃f : Float F⦄ where
  -- `max(times)`, of a first one and the others
  unfoldable pub latest : F → List F → F
  latest t [] = t
  latest t (u ∷ us) = latest (greater t u) us

  -- The inner loop: how far a drone got so far, and when.
  unfoldable pub furthest_in : DroneSample F → List (Frame F) → F → F → Result (F × F)
  furthest_in start [] furthest when = ok (furthest, when)
  furthest_in start (frame ∷ frames) furthest when = sample frame start.drone_id >>= λ s.
      let distance =
        f.hypot (f.sub (s.position).x (start.position).x)
          (f.sub (s.position).y (start.position).y) in
      let near = furthest_in start frames furthest when in
      let far = furthest_in start frames distance frame.t in
      if f.lt furthest distance then far else near

  -- The outer loop, with the furthest of all so far; the violations are those of the rest.
  unfoldable pub travels :
      F → F → List (Frame F) → List (DroneSample F) → F → Result (F × List (Violation F))
  unfolding furthest_in
  travels limit first after [] furthest_of_all = ok (furthest_of_all, [])
  travels limit first after (start ∷ starts) furthest_of_all =
      furthest_in start after (f.of_nat 0) first >>= λ (far : F × F).
      travels limit first after starts (greater furthest_of_all far.0)
      >>= λ (rest : F × List (Violation F)). ok (
        rest.0,
        if f.lt limit far.0
            then breach "travel_after" (start.drone_id ∷ []) (some far.1) (some (f.round far.0 3))
                (some limit)
              ∷ rest.1
            else rest.1,
      )

  -- No drone that is checked was airborne at the event.
  abbrev pub not_airborne : F → Option String → F → AssertionOutcome F
  not_airborne limit named at = judged "travel_after" none "m" (
      breach "travel_after" (elim named [ none ↦ [] | some d ↦ d ∷ [] ]) (some at) none (some limit)
      ∷ [])

  -- Where there is an event, from the time of the last one on.
  unfoldable pub travel_from : F → Option String → F → List (Frame F) → Result (AssertionOutcome F)
  unfolding travels starts_in
  travel_from limit named at [] = ok (not_airborne limit named at)
  travel_from limit named at (frame ∷ frames) = elim (starts_in named (frame ∷ frames)) [
    | [] ↦ ok (not_airborne limit named at)
    | s ∷ ss ↦
        travels limit frame.t (frame ∷ frames) (s ∷ ss) (f.of_nat 0)
        >>= λ (end : F × List (Violation F)).
            ok (judged "travel_after" (some (f.round end.0 3)) "m" end.1)
  ]

  unfoldable pub travel_after :
      List (Event F) → Trace F → F → String → Option String → Option F → Result (AssertionOutcome F)
  unfolding travel_from times_of latest
  travel_after events trace limit kind named end = elim (times_of kind events) [
    | [] ↦
        ok (judged "travel_after" none "m" (breach "travel_after" [] none none (some limit) ∷ []))
    | t ∷ ts ↦
        travel_from limit named (latest t ts)
          (keep_frames (in_window (latest t ts) end) trace.frames)
  ]
