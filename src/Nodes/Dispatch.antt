-- ===== src/Nodes/Dispatch.antt =====
-- What the dispatcher publishes and the aggregator hears (nodes/), next to what the reference ground
-- (scenarios/sut.py) sends and reports: it is their wiring without ROS.
use swarmsim.Payloads.{iterate}
use swarmsim.Nodes.Aggregator.{Aggregator, names_of, on_active_mission}
use swarmsim.Json.{Conversions, items_of, find_member, IsFaithful, array_of}
use mathlib.Core.List.{append_assoc, append-nil}
use swarmsim.Base.{
  none, some, refl, [], ◌∷◌, String, List, ◌≡◌, arith, ap, sym, ◌∙◌, ◌++◌, map, Option,
}
use swarmsim.Supervisor.State.{
  Action, assign, slot, command_drone, active_mission, rejected, task_dropped,
}
use swarmsim.Ground.{ReferenceGround}
use swarmsim.Ground
use swarmsim.Reference.{Message, assignment, slot_given, command_given}
use swarmsim.Nodes.{Publication, plain, dumped, topic_of, Content, id_of, id_value, text_values}
use swarmsim.Nodes.Dispatcher.{
  Dispatcher, send, publisher, carry_out, carry_out_one, assignment_value, slot_value, active_value,
}

module _ {F : Type 0} where
  -- A message of the ground as the dispatcher publishes it.
  unfoldable pub encode : Message F → Publication F
  encode m = elim m.body [
    | assignment mission path ↦ record {
      topic = topic_of m.recipient "mission/assignment";
      content = dumped (assignment_value mission path);
    }
    | slot_given mission leader offset ↦ record {
      topic = topic_of m.recipient "mission/slot";
      content = dumped (slot_value mission leader offset);
    }
    | command_given name ↦ record {
      topic = topic_of m.recipient "mission/command";
      content = plain name;
    }
    | _ ↦ record { topic = ""; content = plain "" }
  ]

  -- What is latched of an action.
  unfoldable pub latched : Action F → List (Publication F)
  latched (active_mission id drones) =
      record { topic = "/swarm/active_mission"; content = dumped (active_value id drones) } ∷ []
  latched (assign d m p) = []
  latched (slot d m l o) = []
  latched (command_drone d n) = []
  latched (rejected m r) = []
  latched (task_dropped d m r) = []

  -- What the dispatcher publishes of actions, by what the ground sends of them.
  unfoldable pub published_by : ReferenceGround F → List (Action F) → List (Publication F)
  published_by g [] = []
  published_by g (a ∷ actions) =
      map encode (Ground.carry_out g a).1
      ++ (latched a ++ published_by (Ground.carry_out g a).0 actions)

  sent_one :
      (d : Dispatcher F) (topic : String) (content : Content F)
      → (send d topic content).published
        ≡ d.published ++ record { topic = topic; content = content } ∷ []
  unfolding send publisher
  sent_one d topic content = ground arith

  one_published :
      (d : Dispatcher F) (g : ReferenceGround F) (a : Action F)
      → (carry_out_one d a).published
        ≡ d.published ++ (map encode (Ground.carry_out g a).1 ++ latched a)
  unfolding carry_out_one Ground.carry_out encode latched
  one_published d g (assign drone m p) = sent_one d _ _
  one_published d g (slot drone m l o) = sent_one d _ _
  one_published d g (command_drone drone n) = sent_one d _ _
  one_published d g (active_mission none drones) = refl
  one_published d g (active_mission (some m) drones) = refl
  one_published d g (rejected m r) = sym (append-nil d.published)
  one_published d g (task_dropped drone m r) = sym (append-nil d.published)

  all_published :
      (actions : List (Action F)) (d : Dispatcher F) (g : ReferenceGround F)
      → (carry_out d actions).published ≡ d.published ++ published_by g actions
  unfolding carry_out published_by
  all_published [] d g = sym (append-nil d.published)
  all_published (a ∷ actions) d g =
      let g' = (Ground.carry_out g a).0 in
      let sent = map encode (Ground.carry_out g a).1 in
      all_published actions (carry_out_one d a) g'
      ∙ ap (λ (ps : List (Publication F)). ps ++ published_by g' actions) (one_published d g a)
      ∙ append_assoc d.published (sent ++ latched a) (published_by g' actions)
      ∙ ap (λ (ps : List (Publication F)). d.published ++ ps)
          (append_assoc sent (latched a) (published_by g' actions))

  unfoldable pub all_latched : List (Action F) → List (Publication F)
  unfolding latched
  all_latched [] = []
  all_latched (a ∷ actions) = latched a ++ all_latched actions

module _ {F : Type 0} (python : Conversions F) where
  -- What the aggregator hears on the latched topic.
  unfoldable pub listen : Aggregator F → List (Publication F) → Aggregator F
  listen a [] = a
  listen a (p ∷ ps) =
      listen
        (elim p.content [
          | plain s ↦ (on_active_mission python a none).0
          | dumped v ↦ (on_active_mission python a (some v)).0
        ])
        ps

  texts_back :
      (ds : List String)
      → IsFaithful python
      → names_of python (items_of (array_of (text_values ds))) ≡ ds
  unfolding names_of items_of array_of text_values
  texts_back [] faithful = refl
  texts_back (d ∷ ds) faithful = rw (faithful.str_of-text d, texts_back ds faithful) refl

  id_back : (id : Option String) → id_of (id_value {F = F} id) ≡ id
  unfolding id_of id_value
  id_back none = refl
  id_back (some s) = refl

  active_back :
      (a : Aggregator F) (id : Option String) (ds : List String)
      → IsFaithful python
      → (on_active_mission python a (some (active_value id ds))).0
        ≡ record a { mission_id = id; mission_drones = ds }
  unfolding on_active_mission find_member iterate
  active_back a id ds faithful = rw (texts_back ds faithful, id_back id) refl

  -- The aggregator and the ground have the same mission.
  pub record SameMission (a : Aggregator F) (g : ReferenceGround F) : Type 0 where
    pub same_id : a.mission_id ≡ g.active_id
    pub same_drones : a.mission_drones ≡ g.active_drones

  listen-SameMission :
      (actions : List (Action F)) (a : Aggregator F) (g : ReferenceGround F)
      → IsFaithful python
      → SameMission a g
      → SameMission (listen a (all_latched actions)) (Ground.carry_out_all g actions).0
  unfolding listen all_latched Ground.carry_out_all Ground.carry_out
  listen-SameMission [] a g faithful h = h
  listen-SameMission (assign d m p ∷ actions) a g faithful h =
      listen-SameMission actions a g faithful h
  listen-SameMission (slot d m l o ∷ actions) a g faithful h =
      listen-SameMission actions a g faithful h
  listen-SameMission (command_drone d n ∷ actions) a g faithful h =
      listen-SameMission actions a g faithful h
  listen-SameMission (rejected m r ∷ actions) a g faithful h =
      listen-SameMission actions a (Ground.carry_out g (rejected m r)).0 faithful
        (record { same_id = h.same_id; same_drones = h.same_drones })
  listen-SameMission (task_dropped d m r ∷ actions) a g faithful h =
      listen-SameMission actions a (Ground.carry_out g (task_dropped d m r)).0 faithful
        (record { same_id = h.same_id; same_drones = h.same_drones })
  listen-SameMission (active_mission id ds ∷ actions) a g faithful h =
      rw (active_back a id ds faithful) (
        listen-SameMission actions (record a { mission_id = id; mission_drones = ds })
          (record g { active_id = id; active_drones = ds }) faithful
          (record { same_id = refl; same_drones = refl }))

  -- The dispatcher and the aggregator refine the reference ground. Whatever the supervisor decides,
  -- the dispatcher publishes what the ground sends, in the same order and each to its drone's topic,
  -- with the active mission latched in its place; and an aggregator that has the ground's mission
  -- and hears what is latched has the ground's mission again.
  pub dispatch_refines :
      (d : Dispatcher F) (a : Aggregator F) (g : ReferenceGround F) (actions : List (Action F))
      → IsFaithful python
      → SameMission a g
      → ((carry_out d actions).published ≡ d.published ++ published_by g actions)
        × SameMission (listen a (all_latched actions)) (Ground.carry_out_all g actions).0
  dispatch_refines d a g actions faithful h =
      (all_published actions d g, listen-SameMission actions a g faithful h)
