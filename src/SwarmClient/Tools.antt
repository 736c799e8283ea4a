-- ===== src/SwarmClient/Tools.antt =====
-- mcp_server/mcp_server/tools.py: the tools of the MCP server, over the client.
use swarmsim.Base.{
  true, false, [], ◌∷◌, Bool, String, List, Option, not, if◌then◌else◌, contains, ℕ,
}
use swarmsim.Float.{Float}
use swarmsim.Json.{Conversions}
use swarmsim.SwarmClient.{
  Answer, Outcome, Request, Waypoint, raised, bad_action, build_mission_payload,
}
use swarmsim.SwarmClient

-- What it takes to run a tool is not part of this record.
pub record ToolSpec : Type 0 where
  pub name : String
  pub title : String
  pub classification : String
  pub read_only : Bool
  pub destructive : Bool
  pub idempotent : Bool
  pub open_world : Bool
  pub endpoint : String

abbrev pub abort_actions : List String
abort_actions = "rtl" ∷ "land" ∷ "hold" ∷ []

module _ {F S : Type 0} ⦃f : Float F⦄ (python : Conversions F)
    (serve : S → Request F → S × Answer F) (token : Option String) where
  unfoldable pub get_swarm_status : S → S × Outcome F
  get_swarm_status s = SwarmClient.swarm_status python serve token s

  unfoldable pub get_mission : S → String → S × Outcome F
  get_mission s mission_id = SwarmClient.mission python serve token s mission_id

  -- The waypoints come as numbers already.
  unfoldable pub plan_mission :
      String → S → String → String → List (Waypoint F) → ℕ → F → Option String → S × Outcome F
  plan_mission key s name mission_type waypoints drone_count spacing formation =
      SwarmClient.plan_mission python serve token key s
        (build_mission_payload name mission_type waypoints drone_count spacing formation)

  unfoldable pub get_mission_plan : S → String → S × Outcome F
  get_mission_plan s plan_id = SwarmClient.mission_plan python serve token s plan_id

  unfoldable pub dispatch_mission : String → S → String → String → S × Outcome F
  dispatch_mission key s plan_id approval_code =
      SwarmClient.dispatch_plan python serve token key s plan_id approval_code

  unfoldable pub abort_mission : String → S → String → String → S × Outcome F
  abort_mission key s mission_id action =
      if not (contains action abort_actions)
      then (s, raised bad_action)
      else SwarmClient.abort_mission python serve token key s mission_id action

  unfoldable pub land_all : String → S → S × Outcome F
  land_all key s = SwarmClient.land_all python serve token key s

unfoldable pub tools : List ToolSpec
tools =
    record {
      name = "get_swarm_status";
      title = "Swarm status";
      classification = "read";
      read_only = true;
      destructive = false;
      idempotent = true;
      open_world = false;
      endpoint = "GET /api/swarm/state";
    }
    ∷ record {
      name = "get_mission";
      title = "Mission status";
      classification = "read";
      read_only = true;
      destructive = false;
      idempotent = true;
      open_world = false;
      endpoint = "GET /api/missions/{id}";
    }
    ∷ record {
      name = "plan_mission";
      title = "Propose a mission plan";
      classification = "plan";
      read_only = false;
      destructive = false;
      idempotent = false;
      open_world = false;
      endpoint = "POST /api/mission-plans";
    }
    ∷ record {
      name = "get_mission_plan";
      title = "Mission plan status";
      classification = "read";
      read_only = true;
      destructive = false;
      idempotent = true;
      open_world = false;
      endpoint = "GET /api/mission-plans/{id}";
    }
    ∷ record {
      name = "dispatch_mission";
      title = "Fly an approved plan";
      classification = "gated-write";
      read_only = false;
      destructive = true;
      idempotent = true;
      open_world = true;
      endpoint = "POST /api/mission-plans/{id}/dispatch";
    }
    ∷ record {
      name = "abort_mission";
      title = "Stop a mission";
      classification = "safety-write";
      read_only = false;
      destructive = true;
      idempotent = true;
      open_world = true;
      endpoint = "POST /api/missions/{id}/abort";
    }
    ∷ record {
      name = "land_all";
      title = "Land every drone now";
      classification = "safety-write";
      read_only = false;
      destructive = true;
      idempotent = true;
      open_world = true;
      endpoint = "POST /api/swarm/land";
    }
    ∷ []
