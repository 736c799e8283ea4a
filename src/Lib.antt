-- ===== src/Lib.antt =====
-- A model of swarmsim's coordination code (swarm_coordination/swarm_coordination), which decides
-- what each drone of a swarm flies.
--
-- The parts and how they interact: the ground's MissionSupervisor (supervisor.py) plans a mission
-- (mission_planning.py, formation.py) onto the drones that are fit, hands a low drone's task to
-- another, and sends each drone a path, a slot behind a leader, or a command. A drone's
-- DroneController (drone_controller.py) flies what it was sent: it pursues the waypoints of a path
-- (waypoints.py, trajectory.py) or a slot, brings its vehicle into OFFBOARD mode by way of an
-- OffboardSequencer (offboard.py), hands it back to PX4 for a command (commands.py), at the end of
-- a task or when its leader is silent, and reports progress, which the supervisor reads and the
-- swarm state publishes. ROS nodes (nodes/) put these classes behind topics, with JSON texts as
-- messages; the scenario runner flies the same classes in a simulation (scenarios/). Outside the
-- swarm, mcp_server's client calls the API that passes missions and commands on.
--
-- Files, and the code each models (in swarm_coordination/swarm_coordination):
--   Base, Base/Lists, Base/Tests   shared names and lemmas; Dict   Python's dict by insertion order
--   Float        the floats' operations that the code uses
--   Errors       what the code raises; Fleet   the orders of drone ids (`_id_order`)
--   Trajectory   trajectory.py: Vector3, step_towards; Frames   frames.py
--   Waypoints    waypoints.py: WaypointQueue; Formation   formation.py; Commands   commands.py
--   Offboard     offboard.py: OffboardSequencer; `step` by its phase in `step_in`
--   Controller   drone_controller.py: DroneController; `tick` with its parts `tick_task`
--                (from the test of the leader's silence on), `pursue` and `fly`
--   Planning     mission_planning.py: plan_swarm_waypoints, plan_mission, MissionPlan.drones
--   Supervisor   supervisor.py: State has the data and the `observe_*` methods, Start has
--                `_unusable`, `_plan`, `start` and `command`, Reallocate has `reallocate`,
--                `_replacement` and `_hand_over`; the other files of Supervisor/ are proofs
--   SwarmState   swarm_state.py: mission_complete, build_state_message
--   Vehicle      scenarios/sim.py: Vehicle, the simulated drone and its autopilot, by parts of `step`
--                and `actuate` in their order
--   Reference    scenarios/sut.py: ReferenceDrone, which wires a controller to its vehicle and to the
--                messages of the swarm
--   Ground       scenarios/sut.py: ReferenceGround, which carries out what the supervisor decides
--   Int, Json    whole numbers, and the values of JSON with what Python makes of them
--   Payloads     mission_planning.py: parse_mission_payload, parse_command_payload
--   Nodes        nodes/: Nodes/Dispatcher is mission_dispatcher_node.py, Nodes/ControllerNode
--                drone_controller_node.py, Nodes/Aggregator swarm_state_aggregator_node.py; the other
--                files of Nodes/ relate them to the reference swarm of scenarios/sut.py
--   SwarmClient  swarm_client.py, and SwarmClient/Tools tools.py, of mcp_server/mcp_server
--   Wind         scenarios/sim.py: Wind, WorldConfig; Scenario   scenarios/spec.py: ScenarioSpec
--   Harness      scenarios/harness.py: run_scenario over a SystemUnderTest, with its messages in
--                Network; Harness/Swarm is ReferenceSwarm of scenarios/sut.py, the other files of
--                Harness/ are proofs
--   Suite        scenarios/model.py, expectations.py and runner.py: verdicts and SuiteReport
--   Assertions   scenarios/assertions.py: the checks on a trace but formation_error; those that
--                claim a distance are in Assertions/Distances and Assertions/Travel, the one on
--                batteries in Assertions/Battery
--   Fit          scenarios/fit.py: _perfect_matching; Fit/Augment, Fit/Search, Fit/Matched and
--                Fit/Fuel are its proofs
--   Examples     runs on concrete inputs, over whole numbers in the place of floats
--
-- A method that changes its object is a function that returns the new object with its result; one
-- that can raise returns a `Result`, with what was written before the error. Ids, modes and
-- commands are texts, compared as texts. The texts of errors and reasons are constructors of data
-- types. A set is a list in which the code's `add` puts an id once.
--
-- Floats are a parameter: a record of the operations, so the proofs hold of every arithmetic,
-- rounding and NaN included. Where the order matters, `IsOrdered` and `IsStrict` state facts of IEEE
-- 754 comparisons. Another party's planner is a parameter of the supervisor; its plans are only
-- assumed to be of two dicts. Loops go over lists by structural recursion.
--
-- A JSON text is the value that json.loads makes of it, or none; what str(), float(), int() and
-- uuid.UUID() make of texts is a parameter (`Conversions`), which is assumed to leave a text under
-- str() as it is. Ints that become floats are assumed to be within a float's range, the keys of a
-- JSON object to be distinct, and the indices of a progress message to be null or not negative. The
-- API that the client calls is a function on a state of its own. WRITE_ATTEMPTS is 3, and the loop
-- over it and the steps of a run, int(round(duration_s / DT_S)) of them, are the only loops on a
-- counter; the search for an augmenting path, which calls itself, has as much fuel as there are
-- columns, and each call tries one more of them. What the generators of a run draw is an argument, and so are the ids of its missions.
--
-- Counts and indices are numbers that are not negative. A mission's drone_count below 0, which its
-- parser lets pass, reaches the supervisor as 0, which is refused alike. `drones` is always given to
-- plan_mission, as the supervisor gives it. Not modelled: the ROS middleware, HTTP and its texts,
-- waiting, and the parts that PROJECT.json lists.
pub mod Base
pub mod Int
pub mod Dict
pub mod Float
pub mod Fleet
pub mod Errors
pub mod Json
pub mod SwarmClient
pub mod Trajectory
pub mod Frames
pub mod Waypoints
pub mod Formation
pub mod Commands
pub mod Offboard
pub mod Controller
pub mod Planning
pub mod Payloads
pub mod Supervisor
pub mod SwarmState
pub mod Vehicle
pub mod Wind
pub mod Reference
pub mod Network
pub mod Ground
pub mod Nodes
pub mod Suite
pub mod Assertions
pub mod Fit
pub mod Scenario
pub mod Harness
pub mod Examples
