-- ===== src/Assertions/Distances.antt =====
-- scenarios/assertions.py: final_position, min_separation and travel_after, the checks that claim a
-- distance.
use swarmsim.Base.{
  true, none, some, [], ◌∷◌, String, List, Bool, Option, if◌then◌else◌, ◌&&◌, ◌==◌, keep,
}
use swarmsim.Errors.{Result, ok, or_raise, ◌>>=◌, no_frame}
use swarmsim.Float.{Float}
use swarmsim.Trajectory.{Vector3, distance_to}
use swarmsim.Fleet.{sort_by}
use swarmsim.Suite.{AssertionOutcome, Violation}
use swarmsim.Assertions.{DroneSample, Frame, Trace, last_of, keep_frames, sample, judged, breach}

-- An entry of `closest`: two drones, how close they came, and when.
pub record Closest (F : Type 0) : Type 0 where
  pub first : String
  pub second : String
  pub distance : F
  pub time : F

module _ {F : Type 0} ⦃f : Float F⦄ where
  -- `start <= f.t_s <= end`, of an end that may be infinite
  abbrev pub in_window : F → Option F → Frame F → Bool
  in_window start end frame =
      f.le start frame.t && elim end [ none ↦ true | some last ↦ f.le frame.t last ]

  abbrev pub airborne_in : List (DroneSample F) → List (DroneSample F)
  airborne_in ss = keep (λ (s : DroneSample F). s.airborne) ss

  unfoldable pub final_position : Trace F → String → Vector3 F → F → Result (AssertionOutcome F)
  final_position trace drone target tolerance = or_raise (last_of trace.frames) no_frame >>= λ last.
      sample last drone >>= λ s.
      let distance = distance_to s.position target in
      ok (
        judged "final_position" (some (f.round distance 3)) "m" (
          if f.lt tolerance distance
          then breach "final_position" (drone ∷ []) (some last.t) (some (f.round distance 3))
              (some tolerance)
            ∷ []
          else []))

  -- The update of `closest`: a pair keeps its place.
  unfoldable pub note_pair : Closest F → List (Closest F) → List (Closest F)
  note_pair c [] = c ∷ []
  note_pair c (k ∷ ks) =
      let rest = note_pair c ks in
      if c.first == k.first && c.second == k.second
      then (if f.lt c.distance k.distance then c else k) ∷ ks
      else k ∷ rest

  -- `combinations(airborne, 2)`: one drone with each after it, and then the others.
  unfoldable pub measure_from :
      F → DroneSample F → List (DroneSample F) → List (Closest F) → List (Closest F)
  unfolding note_pair
  measure_from t a [] closest = closest
  measure_from t a (b ∷ ss) closest = measure_from t a ss (
      note_pair
        (record {
          first = a.drone_id;
          second = b.drone_id;
          distance = distance_to a.position b.position;
          time = t;
        })
        closest)

  unfoldable pub measure_pairs : F → List (DroneSample F) → List (Closest F) → List (Closest F)
  unfolding measure_from
  measure_pairs t [] closest = closest
  measure_pairs t (a ∷ ss) closest = measure_pairs t ss (measure_from t a ss closest)

  unfoldable pub measure_frames : List (Frame F) → List (Closest F) → List (Closest F)
  unfolding measure_pairs
  measure_frames [] closest = closest
  measure_frames (frame ∷ frames) closest =
      measure_frames frames (measure_pairs frame.t (airborne_in frame.drones) closest)

  -- `min(d for d, _ in closest.values())`
  least : F → List (Closest F) → F
  least d [] = d
  least d (c ∷ cs) = least (if f.lt c.distance d then c.distance else d) cs

  -- The violations: those below the limit, by time.
  unfoldable pub breaches_of : F → List (Closest F) → List (Violation F)
  breaches_of limit [] = []
  breaches_of limit (c ∷ cs) =
      let rest = breaches_of limit cs in
      if f.lt c.distance limit
      then breach "min_separation" (c.first ∷ c.second ∷ []) (some c.time)
          (some (f.round c.distance 3)) (some limit)
        ∷ rest
      else rest

  -- The frames of the window, and then what `closest` ends in.
  abbrev pub closest_in : Trace F → F → Option F → List (Closest F)
  closest_in trace start end = measure_frames (keep_frames (in_window start end) trace.frames) []

  unfoldable pub separation_outcome : F → List (Closest F) → AssertionOutcome F
  unfolding least breaches_of
  separation_outcome limit [] =
      judged "min_separation" none "m" (breach "min_separation" [] none none (some limit) ∷ [])
  separation_outcome limit (c ∷ cs) =
      judged "min_separation" (some (f.round (least c.distance cs) 3)) "m"
        (breaches_of limit (sort_by (λ (a b : Closest F). f.le a.time b.time) (c ∷ cs)))

  unfoldable pub min_separation : Trace F → F → F → Option F → AssertionOutcome F
  unfolding separation_outcome measure_frames
  min_separation trace limit start end = separation_outcome limit (closest_in trace start end)
