-- ===== src/SwarmClient.antt =====
-- mcp_server/mcp_server/swarm_client.py: the swarm's API over HTTP, and what a caller learns from
-- a failure. The API behind `urlopen` is a parameter, which answers a request and may change.
pub mod Tools
pub mod Writes
pub mod Outcomes
use swarmsim.Base.{
  none, some, true, false, [], ◌∷◌, zero, suc, ℕ, Bool, String, Option, List, ◌&&◌, ◌||◌, ◌==◌,
  if◌then◌else◌, num_eq,
}
use Prim.Native.String.{◌++◌}
use swarmsim.Dict.{Dict, insert}
use swarmsim.Json.{
  Json, Members, Conversions, null, text, object, array, number, integer, member, end, get, truthy,
  array_of,
}
use swarmsim.Float.{Float}
use swarmsim.Int.{pos}

-- The reason of an URLError.
pub data Reason : Type 0 where
  connection_refused name_unresolved other_reason : Reason
  os_error : ℕ → Reason

-- The bytes of an answer: none, some that are not JSON, or a value.
pub data Body (F : Type 0) : Type 0 where
  no_bytes not_json : Body F
  value_of : Json F → Body F

-- What a request ends in.
pub data Answer (F : Type 0) : Type 0 where
  replied : Body F → Answer F
  http_error : ℕ → Body F → Answer F
  url_error : Reason → Answer F
  timed_out connection_reset http_exception : Answer F

pub record ApiError (F : Type 0) : Type 0 where
  pub status : ℕ
  pub title : String
  pub detail : Json F
  pub errors : Option (Members F)

-- SwarmApiError, SwarmUnreachable and SwarmOutcomeUnknown, the ValueError of a reply that is not
-- JSON, and that of abort_mission in tools.py.
pub data Raised (F : Type 0) : Type 0 where
  api_error : ApiError F → Raised F
  unreachable outcome_unknown undecodable bad_action : Raised F

pub data Outcome (F : Type 0) : Type 0 where
  returned : Json F → Outcome F
  raised : Raised F → Outcome F

pub record Request (F : Type 0) : Type 0 where
  pub method : String
  pub path : String
  pub body : Option (Json F)
  pub headers : Dict String

pub record Waypoint (F : Type 0) : Type 0 where
  pub x : F
  pub y : F
  pub z : F

-- `if token:`, `if idempotency_key:`
abbrev pub add_header : String → String → Option String → Dict String → Dict String
add_header name prefix none headers = headers
add_header name prefix (some value) headers =
    if value == "" then headers else insert name (prefix ++ value) headers

-- `_refused`
unfoldable pub refused : Reason → Bool
refused connection_refused = true
refused name_unresolved = true
refused other_reason = false
refused (os_error errno) = num_eq errno 111 || (num_eq errno 61 || num_eq errno 10061)

module _ {F : Type 0} where
  -- `Waypoint.to_dict`
  waypoint_value : Waypoint F → Json F
  waypoint_value w =
      object (member "x" (number w.x) (member "y" (number w.y) (member "z" (number w.z) end)))

  waypoint_values : List (Waypoint F) → List (Json F)
  waypoint_values [] = []
  waypoint_values (w ∷ ws) = waypoint_value w ∷ waypoint_values ws

  unfoldable pub build_mission_payload :
      String → String → List (Waypoint F) → ℕ → F → Option String → Json F
  unfolding waypoint_values waypoint_value
  build_mission_payload name mission_type waypoints drone_count spacing formation = object (
      member "name" (text name) (
        member "type" (text mission_type) (
          member "waypoints" (array (array_of (waypoint_values waypoints))) (
            member "droneCount" (integer (pos drone_count)) (
              member "spacingMeters" (number spacing) (elim formation [
                | none ↦ end
                | some chosen ↦ member "formation" (text chosen) end
              ]))))))

  unfoldable pub build_request :
      String → String → Option (Json F) → Option String → Option String → Request F
  build_request method path body token key = record {
    method = method;
    path = path;
    body = body;
    headers = add_header "Idempotency-Key" "" key (
        add_header "Authorization" "Bearer " token (elim body [
          | none ↦ ("Accept", "application/json") ∷ []
          | some _ ↦ insert "Content-Type" "application/json" (("Accept", "application/json") ∷ [])
        ]));
  }

  -- The problem in the body of an error, `{}` where it is none.
  unfoldable pub problem_of : Body F → Members F
  problem_of (value_of (object d)) = d
  problem_of _ = end

  unfoldable pub errors_of : Json F → Option (Members F)
  errors_of (object d) = some d
  errors_of _ = none

  -- The handlers in the loop of `_write`: another attempt follows.
  unfoldable pub retried : Raised F → Bool
  retried outcome_unknown = true
  retried (api_error e) = num_eq e.status 409 && (e.title == "Request in progress")
  retried _ = false

  -- The handler in `_read`
  unfoldable pub read_outcome : Outcome F → Outcome F
  read_outcome (raised outcome_unknown) = raised unreachable
  read_outcome o = o

module _ {F : Type 0} ⦃f : Float F⦄ (python : Conversions F) where
  unfoldable pub parse_problem : ℕ → Body F → ApiError F
  unfolding problem_of errors_of
  parse_problem status body =
      let problem = problem_of body in
      let title = get "title" problem in
      record {
        status = status;
        title = if truthy title then python.str_of title else python.phrase_of status;
        detail = get "detail" problem;
        errors = errors_of (get "errors" problem);
      }

  -- `_send`, from the answer on
  unfoldable pub outcome_of : Answer F → Outcome F
  outcome_of (replied no_bytes) = returned (object end)
  outcome_of (replied (value_of v)) = returned v
  outcome_of (replied not_json) = raised undecodable
  outcome_of (http_error status body) = raised (api_error (parse_problem status body))
  outcome_of (url_error reason) = raised (if refused reason then unreachable else outcome_unknown)
  outcome_of timed_out = raised outcome_unknown
  outcome_of connection_reset = raised outcome_unknown
  outcome_of http_exception = raised outcome_unknown

  -- `_uuid`: the id, or the error of an id that is none
  abbrev pub with_uuid : {S : Type 0} → String → S → (String → S × Outcome F) → S × Outcome F
  with_uuid value s call = elim (python.uuid_of value) [
    | none ↦ (
      s,
      raised
          (api_error (record { status = 400; title = "Invalid id"; detail = null; errors = none })),
    )
    | some id ↦ call id
  ]

  module _ {S : Type 0} (serve : S → Request F → S × Answer F) where
    -- `_send`
    unfoldable pub send : S → Request F → S × Outcome F
    unfolding outcome_of
    send s request = let (s', answer) = serve s request in (s', outcome_of answer)

    -- `_read`
    unfoldable pub read : Option String → S → String → S × Outcome F
    read token s path =
        let (s', o) = send s (build_request "GET" path none token none) in (s', read_outcome o)

    -- The loop of `_write`, with the attempts left.
    unfoldable pub attempt : ℕ → S → Request F → S × Outcome F
    attempt zero s request = (s, raised outcome_unknown)
    attempt (suc n) s request =
        let (s', o) = send s request in
        elim o [
          | returned v ↦ (s', returned v)
          | raised e ↦ elim (retried e) [ true ↦ attempt n s' request | false ↦ (s', raised e) ]
        ]

    -- `_write`; `key` is `f"mcp-{uuid.uuid4()}"`, and `WRITE_ATTEMPTS` is 3.
    unfoldable pub write :
        Option String → String → S → String → String → Option (Json F) → S × Outcome F
    write token key s method path body =
        attempt 3 s (build_request method path body token (some key))

    unfoldable pub swarm_status : Option String → S → S × Outcome F
    swarm_status token s = read token s "/api/swarm/state"

    unfoldable pub mission : Option String → S → String → S × Outcome F
    mission token s mission_id = with_uuid mission_id s λ id. read token s ("/api/missions/" ++ id)

    unfoldable pub mission_plan : Option String → S → String → S × Outcome F
    mission_plan token s plan_id =
        with_uuid plan_id s λ id. read token s ("/api/mission-plans/" ++ id)

    unfoldable pub plan_mission : Option String → String → S → Json F → S × Outcome F
    plan_mission token key s payload = write token key s "POST" "/api/mission-plans" (some payload)

    unfoldable pub dispatch_plan : Option String → String → S → String → String → S × Outcome F
    dispatch_plan token key s plan_id approval_code = with_uuid plan_id s λ id.
        write token key s "POST" ("/api/mission-plans/" ++ (id ++ "/dispatch"))
          (some (object (member "approvalCode" (text approval_code) end)))

    unfoldable pub abort_mission : Option String → String → S → String → String → S × Outcome F
    abort_mission token key s mission_id action = with_uuid mission_id s λ id.
        write token key s "POST" ("/api/missions/" ++ (id ++ "/abort"))
          (some (object (member "action" (text action) end)))

    unfoldable pub land_all : Option String → String → S → S × Outcome F
    land_all token key s = write token key s "POST" "/api/swarm/land" none
