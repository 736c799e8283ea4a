-- ===== src/Assertions/Battery.antt =====
-- scenarios/assertions.py: the check that no drone flies on with a task on a low battery.
use swarmsim.Assertions.{Frame, DroneSample, Trace, sample, judged, breach}
use swarmsim.Errors.{Result, ok, ◌>>=◌}
use swarmsim.Float.{Float}
use swarmsim.Suite.{AssertionOutcome, Violation}
use swarmsim.Base.{
  ◌||◌, none, some, false, [], ◌∷◌, String, List, Bool, Option, if◌then◌else◌, ◌&&◌, ◌==◌, ◌++◌,
  not,
}

-- The variables of the loops.
pub record Watch (F : Type 0) : Type 0 where
  pub started : Option F
  pub reported : Bool
  pub longest : F
  pub found : List (Violation F)

module _ {F : Type 0} ⦃f : Float F⦄ where
  unfoldable pub tasked_while_low : F → DroneSample F → Bool
  tasked_while_low threshold s = s.armed && ((s.mode == "OFFBOARD") && f.lt s.battery_pct threshold)

  abbrev pub is_over : F → Bool → F → Bool
  is_over grace reported held = f.lt grace held && not reported

  abbrev pub late_breach : String → F → F → DroneSample F → Violation F
  late_breach drone threshold at s =
      breach "no_task_below_battery" (drone ∷ []) (some at) (some (f.round s.battery_pct 2))
        (some threshold)

  -- The rest of the inner loop's body, for a drone that is tasked while low.
  unfoldable pub hold_on : String → F → F → F → DroneSample F → F → Watch F → Watch F
  hold_on drone threshold grace at s since w =
      let held = f.sub at since in
      record {
        started = some since;
        reported = w.reported || is_over grace w.reported held;
        longest = if f.lt w.longest held then held else w.longest;
        found =
            if is_over grace w.reported held
            then w.found ++ late_breach drone threshold at s ∷ []
            else w.found;
      }

  unfoldable pub watch_sample : String → F → F → F → DroneSample F → Watch F → Watch F
  watch_sample drone threshold grace at s w =
      if tasked_while_low threshold s
      then hold_on drone threshold grace at s (elim w.started [ none ↦ at | some since ↦ since ]) w
      else record w { started = none; reported = false }

  unfoldable pub watch_frames : String → F → F → List (Frame F) → Watch F → Result (Watch F)
  watch_frames drone threshold grace [] w = ok w
  watch_frames drone threshold grace (frame ∷ frames) w = sample frame drone >>= λ s.
      watch_frames drone threshold grace frames (watch_sample drone threshold grace frame.t s w)

  unfoldable pub watch_drones : List String → F → F → List (Frame F) → Watch F → Result (Watch F)
  watch_drones [] threshold grace frames w = ok w
  watch_drones (drone ∷ drones) threshold grace frames w =
      watch_frames drone threshold grace frames (record w { started = none; reported = false })
      >>= λ w'. watch_drones drones threshold grace frames w'

  unfoldable pub no_task_below_battery : Trace F → F → F → Result (AssertionOutcome F)
  no_task_below_battery trace threshold grace =
      watch_drones trace.homes threshold grace trace.frames
        (record { started = none; reported = false; longest = f.of_nat 0; found = [] })
      >>= λ w. ok (judged "no_task_below_battery" (some (f.round w.longest 3)) "s" w.found)
