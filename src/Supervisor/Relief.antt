-- ===== src/Supervisor/Relief.antt =====
-- One drone's turn in the loop of `reallocate` (supervisor.py), and the loop.
use swarmsim.Dict.{lookup}
use swarmsim.Supervisor.HandOver.{Replaces, hand_over_rest, hand_over-Replaces}
use swarmsim.Supervisor.Reallocate.{first_idle, replacement, relieve, busy, must_go, charged}
use swarmsim.Planning.Plans.{IsFlyable, has_part}
use swarmsim.Float.{Float, IsOrdered}
use swarmsim.Supervisor.State.{Mission, Supervisor, add_id, low, finished}
use swarmsim.Base.{
  some, true, false, inl, inr, refl, [], ◌∷◌, String, List, contains, ◌≡◌, Bool-cases, arith, ◌==◌,
  eq_refl, Option-cases, eq_iff, ◌||◌, none, ◌∙◌,
}

pub contains-add_id :
    (d k : String) (ids : List String) → contains k (add_id d ids) ≡ (d == k || contains k ids)
contains-add_id d k ids = ground (arith, eq_iff d k)

module _ {F : Type 0} where
  -- A mission's plan can be flown; drones that were replaced have left it, and drones that were
  -- dropped are still in it.
  pub record IsSound (m : Mission F) : Type 0 where
    pub flyable : IsFlyable m.plan
    pub retired_out : (k : String) → contains k m.retired ≡ true → has_part m.plan k ≡ false
    pub dropped_in : (k : String) → contains k m.dropped ≡ true → has_part m.plan k ≡ true

module _ {F : Type 0} ⦃f : Float F⦄ where
  first_idle_lem :
      (s : Supervisor F) (m : Mission F) (ds : List String) (r : String)
      → first_idle s m ds ≡ some r
      → (contains r ds ≡ true) × (busy m r ≡ false) × (charged s r ≡ true)
  unfolding first_idle
  first_idle_lem s m [] r e = absurd (cc)
  first_idle_lem s m (d ∷ ds) r e = ground (arith, eq_refl d, first_idle_lem s m ds r)

  pub replacement_lem :
      (s : Supervisor F) (m : Mission F) (r : String)
      → replacement s m ≡ some r
      → (contains r s.drones ≡ true)
        × (charged s r ≡ true)
        × (has_part m.plan r ≡ false)
        × (contains r m.retired ≡ false)
        × (contains r m.dropped ≡ false)
  unfolding replacement busy
  replacement_lem s m r e = ground (arith, first_idle_lem s m s.drones r e)

  -- A drone's turn: it stays, or it goes home with nobody to take over, or it goes home replaced.
  pub data Turn (s : Supervisor F) (m : Mission F) (d : String) (m' : Mission F) : Type 0 where
    stays : must_go s m d ≡ false → m' ≡ m → Turn s m d m'
    drops : must_go s m d ≡ true → m' ≡ record m { dropped = add_id d m.dropped } → Turn s m d m'
    goes :
        (r : String)
        → must_go s m d ≡ true
        → replacement s m ≡ some r
        → Replaces m.plan d r m'.plan
        → m'.progress ≡ m.progress
        → m'.dropped ≡ m.dropped
        → m'.retired ≡ add_id d m.retired
        → Turn s m d m'

  pub relieve-Turn :
      (s : Supervisor F) (m : Mission F) (d : String)
      → IsSound m
      → has_part m.plan d ≡ true
      → Turn s m d (relieve s m d).0
  unfolding relieve
  relieve-Turn s m d v there = elim (Bool-cases (must_go s m d)) [
    | inr rests ↦ rw (rests, relieve) (stays rests refl)
    | inl must ↦ elim (Option-cases (replacement s m)) [
      | inl nobody ↦ rw (must, nobody, relieve) (drops must refl)
      | inr (r, e) ↦
          let m₁ = record m { retired = add_id d m.retired } in
          let (_, _, free, _, _) = replacement_lem s m r e in
          let (_, p, t, o, _) = hand_over_rest m₁ d r in
          rw (must, e, relieve)
            (goes r must e (hand_over-Replaces m₁ d r v.flyable there free) p o t)
    ]
  ]

  pub must_go_lem :
      (s : Supervisor F) (m : Mission F) (d : String)
      → must_go s m d ≡ true
      → (contains d m.dropped ≡ false) × (low s d ≡ true) × (finished m d ≡ false)
  unfolding must_go
  must_go_lem s m d h = ground arith

  pub Turn-IsSound :
      (s : Supervisor F) (m m' : Mission F) (d : String)
      → IsSound m
      → has_part m.plan d ≡ true
      → Turn s m d m'
      → IsSound m'
  Turn-IsSound s m m' d v there (stays _ e) = rw e v
  Turn-IsSound s m m' d v there (drops _ e) = rw e (record {
    flyable = v.flyable;
    retired_out = v.retired_out;
    dropped_in = λ k h. ground (arith, contains-add_id d k m.dropped, v.dropped_in k, eq_iff d k);
  })
  Turn-IsSound s m m' d v there (goes r must e moved _ kept gone) =
      let (_, _, free, left, alive) = replacement_lem s m r e in
      record {
        flyable = moved.flyable;
        retired_out = λ k h. ground (
          arith,
          moved.parts k,
          contains-add_id d k m.retired,
          v.retired_out k,
          eq_iff r k,
          eq_iff d k,
        );
        dropped_in = λ k h.
            ground (arith, moved.parts k, v.dropped_in k, eq_iff d k, must_go_lem s m d must);
      }

  -- A turn changes nothing in whether another drone must go, and settles its own: a drone that is
  -- still in the plan after its turn need not go.
  pub Turn-must_go :
      (s : Supervisor F) (m m' : Mission F) (d k : String)
      → (d == k) ≡ false
      → Turn s m d m'
      → must_go s m' k ≡ must_go s m k
  unfolding must_go finished
  Turn-must_go s m m' d k ne (stays _ e) = rw e refl
  Turn-must_go s m m' d k ne (drops _ e) = rw e (ground (arith, contains-add_id d k m.dropped))
  Turn-must_go s m m' d k ne (goes r must e moved p kept gone) = rw (p, kept) refl

  -- The replacement is above the threshold, so it is not low.
  pub not_low_of_charged :
      (s : Supervisor F) (d : String) → IsOrdered f → charged s d ≡ true → low s d ≡ false
  unfolding charged low
  not_low_of_charged s d ord h = elim (Option-cases (lookup d s.battery)) [
    | inl e ↦ rw (e, low)
    | inr (none, e) ↦ rw (e, low)
    | inr (some b, e) ↦ rw (e, low) (ord.not_lt_of_le b s.threshold (rw (e, charged) at h))
  ]

  must_go-dropped :
      (s : Supervisor F) (m : Mission F) (k : String)
      → contains k m.dropped ≡ true
      → must_go s m k ≡ false
  unfolding must_go
  must_go-dropped s m k h = ground arith

  must_go-low :
      (s : Supervisor F) (m : Mission F) (k : String) → low s k ≡ false → must_go s m k ≡ false
  unfolding must_go
  must_go-low s m k h = ground arith

  pub Turn-settles :
      (s : Supervisor F) (m m' : Mission F) (d k : String)
      → IsOrdered f
      → Turn s m d m'
      → has_part m'.plan k ≡ true
      → ((d == k) ≡ false → has_part m.plan k ≡ true → must_go s m k ≡ false)
      → must_go s m' k ≡ false
  Turn-settles s m m' d k ord (stays h e) p others = elim (Bool-cases (d == k)) [
    | inl same ↦ let i = (eq_iff d k).0 same in rw e (rw i at h)
    | inr other ↦ rw e (others other (rw e at p))
  ]
  Turn-settles s m m' d k ord (drops h e) p others = elim (Bool-cases (d == k)) [
    | inl same ↦ rw e (
        must_go-dropped s (record m { dropped = add_id d m.dropped }) k
          (ground (arith, contains-add_id d k m.dropped)))
    | inr other ↦ Turn-must_go s m m' d k other (drops h e) ∙ others other (let q = rw e at p in q)
  ]
  Turn-settles s m m' d k ord (goes r must e moved progress kept gone) p others =
      let (_, full, _, _, _) = replacement_lem s m r e in
      elim (Bool-cases (r == k)) [
        | inl same ↦
            let i = (eq_iff r k).0 same in
            must_go-low s m' k (rw i at (not_low_of_charged s r ord full))
        | inr new ↦
            let parts = moved.parts k in
            let other : (d == k) ≡ false = ground arith in
            Turn-must_go s m m' d k other (goes r must e moved progress kept gone)
            ∙ others other (ground arith)
      ]
