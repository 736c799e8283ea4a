-- ===== src/Payloads.antt =====
-- mission_planning.py: the parsers of the payloads of /swarm/mission and /swarm/command. A text
-- comes as what json.loads makes of it, `none` where it is not JSON.
pub mod Raises
pub mod Escapes
use Prim.Native.String
use swarmsim.Base.{
  none, some, true, false, [], ◌∷◌, zero, suc, ℕ, Bool, String, Option, List, not, ◌&&◌, ◌||◌, ◌==◌,
  ◌+◌, if◌then◌else◌, num_eq,
}
use swarmsim.Int.{ℤ, pos, negsuc}
use swarmsim.Float.{Float}
use swarmsim.Trajectory.{Vector3, vector}
use swarmsim.Planning.{CommandMessage}
use swarmsim.Errors.{
  Result, Error, ok, err, ◌>>=◌, ◌>>◌, raise_if, or_raise, not_json, not_an_object, bad_version,
  missing_field, malformed_field, not_a_float, not_an_int, unhashable, overflow, unknown_type,
  unknown_formation, unknown_command, bad_uuid,
}
use swarmsim.Json.{
  Json, Items, Members, Conversions, null, boolean, integer, number, text, array, object, member,
  end, nil, cons, is_null, find_member, get, items_of,
}

-- A MissionMessage as it is parsed: its `drone_count` may be below 0.
pub record ParsedMission (F : Type 0) : Type 0 where
  pub mission_id : String
  pub mission_type : String
  pub formation : String
  pub waypoints : List (Vector3 F)
  pub drone_count : ℤ
  pub spacing : F

module _ {F : Type 0} where
  -- The characters of a text, and the keys of a dict, which iterating over them gives.
  chars : String → List (Json F)
  chars String.[] = []
  chars (String.◌∷◌ c s) = text (String.◌∷◌ c String.[]) ∷ chars s

  member_keys : Members F → List (Json F)
  member_keys end = []
  member_keys (member k v rest) = text k ∷ member_keys rest

  -- `for x in value`, a TypeError where that cannot be iterated
  unfoldable pub iterate : Json F → Result (List (Json F))
  unfolding chars member_keys
  iterate (array xs) = ok (items_of xs)
  iterate (text s) = ok (chars s)
  iterate (object d) = ok (member_keys d)
  iterate _ = err malformed_field

  -- `payload[key]`
  unfoldable pub field : String → Members F → Result (Json F)
  field key payload = or_raise (find_member key payload) missing_field

  -- `value in names` of a tuple of texts
  unfoldable pub among : List String → Json F → Option String
  among [] value = none
  among (name ∷ names) (text s) = if s == name then some s else among names (text s)
  among (name ∷ names) _ = none

  -- The parts of the coordinates, and `Vector3(*parts)`
  unfoldable pub vector_of : List F → Result (Vector3 F)
  vector_of (x ∷ y ∷ z ∷ []) = ok (vector x y z)
  vector_of _ = err malformed_field

  -- `value in FORMATIONS`, which hashes the value
  unfoldable pub known_formation : Json F → Result String
  known_formation (array xs) = err unhashable
  known_formation (object d) = err unhashable
  known_formation value = or_raise (among ("line" ∷ "v" ∷ []) value) unknown_formation

  -- `payload.get("formation", "line")`
  abbrev pub formation_of : Members F → Json F
  formation_of payload = elim (find_member "formation" payload) [ none ↦ text "line" | some v ↦ v ]

  -- `isinstance(payload, dict)`
  unfoldable pub payload_of : Option (Json F) → Result (Members F)
  payload_of none = err not_json
  payload_of (some (object payload)) = ok payload
  payload_of (some _) = err not_an_object

module _ {F : Type 0} ⦃f : Float F⦄ where
  -- `value == CONTRACT_VERSION`, which is 1
  unfoldable pub is_version : Json F → Bool
  is_version (integer (pos n)) = num_eq n 1
  is_version (boolean b) = b
  is_version (number x) = f.le x (f.of_nat 1) && f.le (f.of_nat 1) x
  is_version _ = false

  -- `_require_version`
  unfoldable pub require_version : Members F → Result (Unit {0})
  require_version payload = raise_if (not (is_version (get "version" payload))) bad_version

module _ {F : Type 0} ⦃f : Float F⦄ (python : Conversions F) where
  -- `float(value)`, for ints that a float can hold
  unfoldable pub float_of : Json F → Result F
  float_of (number x) = ok x
  float_of (integer (pos n)) = ok (f.of_nat n)
  float_of (integer (negsuc n)) = ok (f.neg (f.of_nat (n + 1)))
  float_of (boolean true) = ok (f.of_nat 1)
  float_of (boolean false) = ok (f.of_nat 0)
  float_of (text s) = or_raise (python.float_of_text s) not_a_float
  float_of _ = err malformed_field

  -- `int(value)`
  unfoldable pub int_of : Json F → Result ℤ
  int_of (integer i) = ok i
  int_of (boolean true) = ok (pos 1)
  int_of (boolean false) = ok (pos 0)
  int_of (number x) = or_raise (python.whole_of x) (if f.is_nan x then not_an_int else overflow)
  int_of (text s) = or_raise (python.int_of_text s) not_an_int
  int_of _ = err malformed_field

  unfoldable pub floats_of : List (Json F) → Result (List F)
  floats_of [] = ok []
  floats_of (c ∷ cs) = float_of c >>= λ x. floats_of cs >>= λ xs. ok (x ∷ xs)

  -- `Vector3(*(float(c) for c in value))`
  unfoldable pub waypoint_of : Json F → Result (Vector3 F)
  waypoint_of value = iterate value >>= λ cs. floats_of cs >>= λ xs. vector_of xs

  unfoldable pub waypoints_of : List (Json F) → Result (List (Vector3 F))
  waypoints_of [] = ok []
  waypoints_of (v ∷ vs) = waypoint_of v >>= λ w. waypoints_of vs >>= λ ws. ok (w ∷ ws)

  -- `[Vector3(...) for wp in value]`
  unfoldable pub path_of : Json F → Result (List (Vector3 F))
  path_of value = iterate value >>= λ vs. waypoints_of vs

  -- `_require_uuid`
  unfoldable pub require_uuid : Json F → Result String
  require_uuid value = or_raise (python.uuid_of (python.str_of value)) bad_uuid

  unfoldable pub parse_mission_payload : Option (Json F) → Result (ParsedMission F)
  parse_mission_payload loaded = do
    payload ← payload_of loaded
    require_version payload
    mission_type ← field "type" payload
    waypoints ← field "waypoints" payload >>= path_of
    drone_count ← field "drone_count" payload >>= int_of
    spacing ← field "spacing_m" payload >>= float_of
    mission_id ← field "mission_id" payload >>= require_uuid
    kind ← or_raise (among ("waypoint" ∷ "formation" ∷ []) mission_type) unknown_type
    formation ← known_formation (formation_of payload)
    ok (record {
      mission_id = mission_id;
      mission_type = kind;
      formation = formation;
      waypoints = waypoints;
      drone_count = drone_count;
      spacing = spacing;
    })

  -- `None if mission_id is None else _require_uuid(mission_id)`
  unfoldable pub optional_uuid : Json F → Result (Option String)
  optional_uuid value =
      if is_null value then ok none else (require_uuid value >>= λ id. ok (some id))

  unfoldable pub parse_command_payload : Option (Json F) → Result CommandMessage
  parse_command_payload loaded = do
    payload ← payload_of loaded
    require_version payload
    name ← or_raise (among ("rtl" ∷ "land" ∷ "hold" ∷ []) (get "command" payload)) unknown_command
    mission_id ← optional_uuid (get "mission_id" payload)
    ok (record { command = name; mission_id = mission_id })
