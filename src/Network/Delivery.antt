-- ===== src/Network/Delivery.antt =====
-- What the network of a run delivers.
use mathlib.Core.List.{append-nil, append_assoc}
use swarmsim.Base.{
  false, [], ◌∷◌, List, String, Bool, contains, keep, if◌then◌else◌, not, ◌++◌, ◌==◌, ◌||◌, ◌&&◌,
  ◌≡◌, refl, sym, ap, ◌∙◌, arith, eq_iff, Distinct, Bool-cases, inl, inr, contains-append,
  contains-keep, Distinct-append, Distinct-keep,
}
use swarmsim.Reference.{Message}
use swarmsim.Network.{Inbox, append, recipients, deliver_to, deliver, deliver_all}

module _ {F : Type 0} where
  -- Whom a message is for: one, or everyone but its sender, and the ground in any case.
  abbrev pub is_for : List String → String → Message F → Bool
  is_for crew name message =
      if message.recipient == "*"
      then (contains name crew && not (name == message.sender)) || ("ground" == name)
      else message.recipient == name

  abbrev pub reaches : List String → List String → String → Message F → Bool
  reaches cut crew name message =
      not (contains message.sender cut) && (is_for crew name message && not (contains name cut))

  once : Bool → Message F → List (Message F)
  once b message = if b then message ∷ [] else []

  recipients_lem :
      (crew : List String) (name : String) (message : Message F)
      → contains name (recipients crew message) ≡ is_for crew name message
  unfolding recipients
  recipients_lem crew name message = ground (
    arith,
    contains-append name (keep (λ d. not (d == message.sender)) crew) ("ground" ∷ []),
    contains-keep (λ d. not (d == message.sender)) name crew,
  )

  recipients-Distinct :
      (crew : List String) (message : Message F)
      → Distinct crew
      → contains "ground" crew ≡ false
      → Distinct (recipients crew message)
  unfolding recipients
  recipients-Distinct crew message d apart = elim (Bool-cases (message.recipient == "*")) [
    | inr one ↦ rw (one) (refl, tt)
    | inl everyone ↦ rw (everyone) (
        Distinct-append (keep (λ d. not (d == message.sender)) crew) ("ground" ∷ [])
          (Distinct-keep (λ d. not (d == message.sender)) crew d) (refl, tt)
          (λ k h.
            ground
              (arith, contains-keep (λ d. not (d == message.sender)) k crew, eq_iff "ground" k)))
  ]

  deliver_to_lem :
      (cut rs : List String) (message : Message F) (inbox : Inbox F) (name : String)
      → Distinct rs
      → deliver_to cut message rs inbox name
        ≡ inbox name ++ once (contains name rs && not (contains name cut)) message
  unfolding deliver_to once
  deliver_to_lem cut [] message inbox name d = sym (append-nil (inbox name))
  deliver_to_lem cut (r ∷ rs) message inbox name (fresh, d) =
      let inbox' = if contains r cut then inbox else append r message inbox in
      let rest = deliver_to_lem cut rs message inbox' name d in
      elim (Bool-cases (r == name)) [
        | inr other ↦ ground (arith, rest)
        | inl same ↦
            let e = (eq_iff r name).0 same in
            let gone : contains name rs ≡ false = rw e at fresh in
            ground (
              arith,
              rest,
              gone,
              ap (λ k. contains k cut) e,
              append-nil (inbox' name),
              append-nil (inbox name),
            )
      ]

  deliver_lem :
      (cut crew : List String) (message : Message F) (inbox : Inbox F) (name : String)
      → Distinct crew
      → contains "ground" crew ≡ false
      → deliver cut crew message inbox name
        ≡ inbox name ++ once (reaches cut crew name message) message
  unfolding deliver once
  deliver_lem cut crew message inbox name d apart = ground (
    arith,
    deliver_to_lem cut (recipients crew message) message inbox name
        (recipients-Distinct crew message d apart),
    recipients_lem crew name message,
    append-nil (inbox name),
  )

  once_kept :
      (p : Message F → Bool) (m : Message F) (ms : List (Message F))
      → once (p m) m ++ keep p ms ≡ keep p (m ∷ ms)
  unfolding once
  once_kept p m ms = elim (Bool-cases (p m)) [
    | inl kept ↦ rw (kept) refl
    | inr lost ↦ rw (lost) refl
  ]

  -- After the messages of a step, what waits for a drone or the ground is what waited for it before,
  -- and the messages that reach it, in the order in which they were sent.
  pub deliver_all_lem :
      (cut crew : List String) (outgoing : List (Message F)) (inbox : Inbox F) (name : String)
      → Distinct crew
      → contains "ground" crew ≡ false
      → deliver_all cut crew outgoing inbox name
        ≡ inbox name ++ keep (reaches cut crew name) outgoing
  unfolding deliver_all deliver
  deliver_all_lem cut crew [] inbox name d apart = sym (append-nil (inbox name))
  deliver_all_lem cut crew (m ∷ outgoing) inbox name d apart =
      deliver_all_lem cut crew outgoing (deliver cut crew m inbox) name d apart
      ∙ ap (λ (ms : List (Message F)). ms ++ keep (reaches cut crew name) outgoing)
          (deliver_lem cut crew m inbox name d apart)
      ∙ append_assoc (inbox name) (once (reaches cut crew name m) m)
          (keep (reaches cut crew name) outgoing)
      ∙ ap (λ (ms : List (Message F)). inbox name ++ ms)
          (once_kept (reaches cut crew name) m outgoing)
