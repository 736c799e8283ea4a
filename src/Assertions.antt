-- ===== src/Assertions.antt =====
-- scenarios/assertions.py: checks on the trace of a scenario run. The texts that describe a
-- violation are left out.
pub mod Judgements
pub mod Completion
pub mod Battery
pub mod LowBattery
pub mod Stretches
pub mod Distances
pub mod Separation
pub mod Travel
use swarmsim.Errors.{Result, err, ok, or_raise, no_sample, ◌>>=◌, no_frame}
use swarmsim.Trajectory.{Vector3, distance_to}
use swarmsim.Float.{Float}
use swarmsim.Base.{
  none, some, [], ◌∷◌, String, List, Bool, Option, if◌then◌else◌, ◌||◌, num_eq, is_text, ltb,
  length, ◌&&◌, ◌==◌, take, ◌++◌,
}
use swarmsim.Suite.{AssertionOutcome, Violation}

pub record DroneSample (F : Type 0) : Type 0 where
  pub drone_id : String
  pub position : Vector3 F
  pub armed : Bool
  pub mode : String
  pub battery_pct : F
  pub airborne : Bool

pub record Frame (F : Type 0) : Type 0 where
  pub t : F
  pub drones : List (DroneSample F)
  pub reported_mission_id : Option String
  pub reported_complete : Bool

-- Of a trace, what these checks read: the drones, and of a mission when it was dispatched and its id.
pub record Trace (F : Type 0) : Type 0 where
  pub homes : List String
  pub missions : List (F × String)
  pub frames : List (Frame F)

abbrev pub last_of {ℓ} : {A : Type ℓ} → List A → Option A
last_of [] = none
last_of (x ∷ []) = some x
last_of (x ∷ y ∷ ys) = last_of (y ∷ ys)

-- `reversed(xs)`
abbrev pub reversed {ℓ} : {A : Type ℓ} → List A → List A
reversed [] = []
reversed (x ∷ xs) = reversed xs ++ x ∷ []

abbrev pub keep_frames : {F : Type 0} → (Frame F → Bool) → List (Frame F) → List (Frame F)
keep_frames test [] = []
keep_frames test (x ∷ xs) = let rest = keep_frames test xs in if test x then x ∷ rest else rest

module _ {F : Type 0} where
  -- `_sample`
  pub find_sample : List (DroneSample F) → String → Result (DroneSample F)
  find_sample [] drone = err no_sample
  find_sample (s ∷ ss) drone =
      let later = find_sample ss drone in if s.drone_id == drone then ok s else later

  unfoldable pub sample : Frame F → String → Result (DroneSample F)
  unfolding find_sample
  sample frame drone = find_sample frame.drones drone

  -- `_outcome`: it passes if there is no violation.
  abbrev pub judged : String → Option F → String → List (Violation F) → AssertionOutcome F
  judged kind measured unit violations = record {
    assertion = kind;
    passed = num_eq (length violations) 0;
    measured = measured;
    unit = unit;
    violations = violations;
  }

  abbrev pub breach : String → List String → Option F → Option F → Option F → Violation F
  breach kind drones at measured threshold = record {
    assertion = kind;
    drone_ids = drones;
    timestamp = at;
    measured_value = measured;
    threshold = threshold;
  }

  -- `never_mode`, from a frame on
  pub never_mode_from : List (Frame F) → String → String → Result (AssertionOutcome F)
  never_mode_from [] drone mode = ok (judged "never_mode" none "s" [])
  never_mode_from (frame ∷ frames) drone mode =
      let later = never_mode_from frames drone mode in
      sample frame drone >>= λ s.
      if s.mode == mode
      then ok (
          judged "never_mode" (some frame.t) "s"
            (breach "never_mode" (drone ∷ []) (some frame.t) none none ∷ []))
      else later

  unfoldable pub never_mode : Trace F → String → String → Result (AssertionOutcome F)
  unfolding never_mode_from
  never_mode trace drone mode = never_mode_from trace.frames drone mode

  -- A drone of a frame that is still armed or in the air.
  abbrev pub is_up : DroneSample F → Bool
  is_up s = s.armed || s.airborne

  pub still_up : List (DroneSample F) → List (DroneSample F)
  still_up [] = []
  still_up (s ∷ ss) = let rest = still_up ss in if is_up s then s ∷ rest else rest

  -- The first frame in which a mission is reported complete.
  pub completed_at : List (Frame F) → String → Option F
  completed_at [] mission = none
  completed_at (frame ∷ frames) mission =
      let later = completed_at frames mission in
      if is_text frame.reported_mission_id mission && frame.reported_complete
      then some frame.t
      else later

module _ {F : Type 0} ⦃f : Float F⦄ where
  -- 1e-9
  abbrev pub slack : F
  slack = f.div (f.of_nat 1) (f.of_nat 1000000000)

  -- The frames up to a time, or else the first.
  unfoldable pub frames_until : List (Frame F) → F → List (Frame F)
  frames_until frames by =
      let early = keep_frames (λ frame. f.le frame.t (f.add by slack)) frames in
      if num_eq (length early) 0 then take 1 frames else early

  -- The time since when everything has been down, along the frames from the last one back.
  landed_since : F → List (Frame F) → F
  landed_since since [] = since
  landed_since since (frame ∷ frames) =
      let earlier = landed_since frame.t frames in
      if ltb 0 (length (still_up frame.drones)) then since else earlier

  up_breaches : F → List (DroneSample F) → List (Violation F)
  up_breaches at [] = []
  up_breaches at (s ∷ ss) =
      breach "all_landed" (s.drone_id ∷ []) (some at) (some (f.round (s.position).z 3))
        (some (f.of_nat 0))
      ∷ up_breaches at ss

  unfoldable pub all_landed : Trace F → F → Result (AssertionOutcome F)
  unfolding landed_since up_breaches still_up
  all_landed trace by =
      let frames = frames_until trace.frames by in
      or_raise (last_of frames) no_frame >>= λ last.
      let flying = still_up last.drones in
      if ltb 0 (length flying)
      then ok (judged "all_landed" none "s" (up_breaches last.t flying))
      else ok (judged "all_landed" (some (landed_since last.t (reversed frames))) "s" [])

  unfoldable pub mission_completes : Trace F → F → AssertionOutcome F
  unfolding completed_at
  mission_completes trace within = elim (last_of trace.missions) [
    | none ↦
        judged "mission_completes" none "s"
          (breach "mission_completes" [] none none (some within) ∷ [])
    | some (dispatched, mission) ↦ elim (completed_at trace.frames mission) [
      | none ↦
          judged "mission_completes" none "s"
            (breach "mission_completes" [] none none (some within) ∷ [])
      | some completed ↦
          let took = f.round (f.sub completed dispatched) 3 in
          judged "mission_completes" (some took) "s" (
            if f.lt within took
            then breach "mission_completes" [] (some completed) (some took) (some within) ∷ []
            else [])
    ]
  ]

  -- The end of `reaches`, where the target was not reached.
  abbrev pub never_reached : Option F → String → F → F → AssertionOutcome F
  never_reached closest drone tolerance by = judged "reaches" none "s" (
      breach "reaches" (drone ∷ []) (some by)
        (elim closest [ none ↦ none | some d ↦ some (f.round d 3) ]) (some tolerance)
      ∷ [])

  -- `reaches`, from a frame on, with the closest distance so far
  pub reaches_from :
      List (Frame F) → Option F → String → Vector3 F → F → F → F → Result (AssertionOutcome F)
  reaches_from [] closest drone target tolerance by start =
      ok (never_reached closest drone tolerance by)
  reaches_from (frame ∷ frames) closest drone target tolerance by start =
      let skipped = reaches_from frames closest drone target tolerance by start in
      if f.lt (f.add by slack) frame.t
      then ok (never_reached closest drone tolerance by)
      else if f.lt frame.t start
      then skipped
      else sample frame drone >>= λ s.
          let distance = distance_to s.position target in
          if f.le distance tolerance
          then ok (judged "reaches" (some frame.t) "s" [])
          else reaches_from frames
              (some (elim closest [
                | none ↦ distance
                | some d ↦ if f.lt distance d then distance else d
              ]))
              drone target tolerance by start

  unfoldable pub reaches : Trace F → String → Vector3 F → F → F → F → Result (AssertionOutcome F)
  unfolding reaches_from
  reaches trace drone target tolerance by start =
      reaches_from trace.frames none drone target tolerance by start
