-- ===== src/Harness/RoundTrip.antt =====
-- The payloads that a run submits, read back by the parsers of mission_planning.py.
use swarmsim.Base.{[], ◌∷◌, none, some, refl, String, ◌≡◌, ◌⊎◌, inl, inr}
use swarmsim.Float.{Float}
use swarmsim.Errors.{ok}
use swarmsim.Int.{pos}
use swarmsim.Json.{text, Conversions, IsFaithful, find_member}
use swarmsim.Payloads.{
  ParsedMission, parse_mission_payload, parse_command_payload, payload_of, require_version,
  is_version, field, path_of, iterate, int_of, float_of, require_uuid, among, known_formation,
  optional_uuid,
}
use swarmsim.Nodes.{path_values}
use swarmsim.Nodes.Delivery.{path_back, items_back}
use swarmsim.Harness.{mission_payload, command_payload}
use swarmsim.Scenario.{MissionData}

module _ {F : Type 0} where
  -- What the schema allows of a mission.
  pub record IsAllowed (m : MissionData F) : Type 0 where
    pub allowed_type : (m.mission_type ≡ "waypoint") ⊎ (m.mission_type ≡ "formation")
    pub allowed_formation :
        (m.formation ≡ none) ⊎ ((m.formation ≡ some "line") ⊎ (m.formation ≡ some "v"))

  abbrev pub shape_of : MissionData F → String
  shape_of m = elim m.formation [ none ↦ "line" | some name ↦ name ]

  abbrev pub parsed_of : String → MissionData F → ParsedMission F
  parsed_of id m = record {
    mission_id = id;
    mission_type = m.mission_type;
    formation = shape_of m;
    waypoints = m.waypoints;
    drone_count = pos m.drone_count;
    spacing = m.spacing;
  }

  type_back :
      (m : MissionData F)
      → IsAllowed m
      → among {F = F} ("waypoint" ∷ "formation" ∷ []) (text m.mission_type) ≡ some m.mission_type
  unfolding among
  type_back m allowed = elim allowed.allowed_type [ inl e ↦ rw (e) refl | inr e ↦ rw (e) refl ]

  shape_back :
      (m : MissionData F)
      → IsAllowed m
      → known_formation {F = F} (text (shape_of m)) ≡ ok (shape_of m)
  unfolding known_formation among
  shape_back m allowed = elim allowed.allowed_formation [
    | inl e ↦ rw (e) refl
    | inr (inl e) ↦ rw (e) refl
    | inr (inr e) ↦ rw (e) refl
  ]

module _ {F : Type 0} ⦃f : Float F⦄ (python : Conversions F) where
  -- A mission that the schema allows is submitted as a payload that the parser accepts, and it
  -- reads back the mission's id, type, waypoints, drone count and spacing, and its formation, a line
  -- where it names none. The id is one that uuid.UUID() leaves as it is.
  pub mission_payload-parse :
      (id : String) (m : MissionData F)
      → IsFaithful python
      → python.uuid_of id ≡ some id
      → IsAllowed m
      → parse_mission_payload python (some (mission_payload id m)) ≡ ok (parsed_of id m)
  unfolding parse_mission_payload mission_payload payload_of require_version is_version find_member
      field path_of iterate int_of float_of require_uuid
  mission_payload-parse id m faithful canonical allowed =
      rw
        (
          items_back python (path_values m.waypoints),
          path_back python m.waypoints,
          faithful.str_of-text id,
          canonical,
          type_back m allowed,
          shape_back m allowed,
        )
        refl

  -- An operator's command is submitted as a payload from which the parser reads that command, and
  -- no mission.
  pub command_payload-parse :
      (name : String)
      → among {F = F} ("rtl" ∷ "land" ∷ "hold" ∷ []) (text name) ≡ some name
      → parse_command_payload python (some (command_payload name))
        ≡ ok (record { command = name; mission_id = none })
  unfolding parse_command_payload command_payload payload_of require_version is_version find_member
      optional_uuid
  command_payload-parse name known = rw (known) refl
