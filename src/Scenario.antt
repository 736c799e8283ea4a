-- ===== src/Scenario.antt =====
-- scenarios/spec.py: the scenario of a run, as it is read from a file that the schema allows.
use swarmsim.Base.{
  none, some, zero, suc, ℕ, ◌+◌, ◌-◌, ◌/◌, ◌%◌, [], ◌∷◌, List, String, Option, if◌then◌else◌, ltb,
  get_elem?,
}
use Prim.Native.String.{◌++◌}
use swarmsim.Float.{Float}
use swarmsim.Trajectory.{Vector3, vector}
use swarmsim.Reference.{DroneInfo}
use swarmsim.Wind.{WorldConfig}

-- The data of a mission event, as the schema has it.
pub record MissionData (F : Type 0) : Type 0 where
  pub mission_type : String
  pub formation : Option String
  pub waypoints : List (Vector3 F)
  pub drone_count : ℕ
  pub spacing : F

pub data EventData (F : Type 0) : Type 0 where
  mission_event : MissionData F → EventData F
  command_event : String → EventData F
  battery_event : String → F → EventData F
  comms_loss_event : List String → F → EventData F

pub record Event (F : Type 0) : Type 0 where
  pub at : F
  pub happens : EventData F

-- What a run takes from its scenario; `mission_ids` has the mission ids, by the number of their
-- event: uuid5 of the scenario's name, that number and the seed.
pub record ScenarioSpec (F : Type 0) : Type 0 where
  pub mission_ids : ℕ → String
  pub drones : ℕ
  pub duration : F
  pub world : WorldConfig F
  pub initial_battery_pct : F
  pub events : List (Event F)

-- The decimal text of a number, as `f"{n}"` has it; `n` steps are enough for `n`.
digit : ℕ → String
digit d =
    elim (get_elem? {A = String} ("0" ∷ "1" ∷ "2" ∷ "3" ∷ "4" ∷ "5" ∷ "6" ∷ "7" ∷ "8" ∷ "9" ∷ []) d)
      as (λ o. String) [ none ↦ "" | some text ↦ text ]

decimal_in : ℕ → ℕ → String
unfolding digit
decimal_in zero n = digit n
decimal_in (suc steps) n =
    let rest = decimal_in steps (n / 10) in if ltb n 10 then digit n else rest ++ digit (n % 10)

unfoldable pub decimal : ℕ → String
unfolding decimal_in
decimal n = decimal_in n n

-- `ScenarioSpec.drone_ids`, of the drones from a number on
unfoldable pub ids_from : ℕ → ℕ → List String
unfolding decimal
ids_from first zero = []
ids_from first (suc n) = ("drone_" ++ decimal first) ∷ ids_from (first + 1) n

module _ {F : Type 0} ⦃f : Float F⦄ where
  -- `ScenarioSpec.home`, of the drone with a number; `PAD_SPACING_M` is 3.0.
  home_of : ℕ → Vector3 F
  home_of i = vector (f.of_nat 0) (f.mul (f.of_nat 3) (f.of_nat (i - 1))) (f.of_nat 0)

  -- The drones of a run, with their homes.
  infos_from : ℕ → List String → List (DroneInfo F)
  unfolding home_of
  infos_from first [] = []
  infos_from first (id ∷ ids) =
      record { drone_id = id; home = home_of first } ∷ infos_from (first + 1) ids

  unfoldable pub fleet_of : ScenarioSpec F → List (DroneInfo F)
  unfolding ids_from infos_from
  fleet_of s = infos_from 1 (ids_from 1 s.drones)
