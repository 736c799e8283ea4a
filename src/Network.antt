-- ===== src/Network.antt =====
-- scenarios/harness.py: the network of a run, which delivers the messages of a step on the next one
-- unless a fault has cut off their sender or their recipient.
pub mod Delivery
use swarmsim.Base.{
  true, false, [], ◌∷◌, List, String, Bool, contains, keep, if◌then◌else◌, not, ◌++◌, ◌==◌, ◌||◌,
}
use swarmsim.Float.{Float}
use swarmsim.Reference.{Message}

-- `defaultdict(list)`: the messages that wait for each recipient.
abbrev pub Inbox : Type 0 → Type 0
Inbox F = String → List (Message F)

module _ {F : Type 0} where
  -- What is left after `inbox.pop(name, [])`.
  abbrev pub without : String → Inbox F → Inbox F
  without name inbox other = if name == other then [] else inbox other

  -- What is left where each of these has taken its messages.
  unfoldable pub without_all : List String → Inbox F → Inbox F
  without_all [] inbox = inbox
  without_all (name ∷ names) inbox = without_all names (without name inbox)

  -- `inbox[recipient].append(message)`
  abbrev pub append : String → Message F → Inbox F → Inbox F
  append recipient message inbox other =
      if recipient == other then inbox other ++ message ∷ [] else inbox other

  -- `recipients`, of EVERYONE or one, where `crew` are the drones
  unfoldable pub recipients : List String → Message F → List String
  recipients crew message =
      if message.recipient == "*"
      then keep (λ d. not (d == message.sender)) crew ++ "ground" ∷ []
      else message.recipient ∷ []

  unfoldable pub deliver_to : List String → Message F → List String → Inbox F → Inbox F
  deliver_to cut message [] inbox = inbox
  deliver_to cut message (recipient ∷ rest) inbox =
      deliver_to cut message rest
        (if contains recipient cut then inbox else append recipient message inbox)

  unfoldable pub deliver : List String → List String → Message F → Inbox F → Inbox F
  unfolding deliver_to recipients
  deliver cut crew message inbox =
      if contains message.sender cut
      then inbox
      else deliver_to cut message (recipients crew message) inbox

  -- `for message in outgoing`
  unfoldable pub deliver_all : List String → List String → List (Message F) → Inbox F → Inbox F
  unfolding deliver
  deliver_all cut crew [] inbox = inbox
  deliver_all cut crew (message ∷ outgoing) inbox =
      deliver_all cut crew outgoing (deliver cut crew message inbox)

module _ {F : Type 0} ⦃f : Float F⦄ where
  -- `cut`: the union of the sets that are cut off at a time
  unfoldable pub cut_at : F → List (List String × F) → List String
  cut_at now [] = []
  cut_at now ((drones, until) ∷ cut_off) =
      let rest = cut_at now cut_off in if f.lt now until then drones ++ rest else rest
