-- ===== src/Supervisor/Reallocation.antt =====
-- The loop of `reallocate` (supervisor.py): the plan it leaves, and whom it sends home.
use swarmsim.Planning.Plans.{has_part, size}
use swarmsim.Supervisor.Relief.{
  Turn, IsSound, stays, drops, goes, Turn-must_go, relieve-Turn, Turn-IsSound, Turn-settles,
}
use swarmsim.Supervisor.Messages.{sent_home, hand_over-messages, sent_home-append}
use swarmsim.Supervisor.Reallocate.{relieve_all, relieve, must_go, replacement}
use swarmsim.Supervisor.State.{Mission, Supervisor, add_id}
use swarmsim.Float.{Float, IsOrdered}
use swarmsim.Base.{
  true, false, inl, inr, refl, [], ◌∷◌, List, String, contains, ◌≡◌, Distinct, if◌then◌else◌, keep,
  arith, Option-cases, eq_refl, eq_iff, ◌∙◌,
}

module _ {F : Type 0} ⦃f : Float F⦄ where
  -- The loop's drones have yet to take their turn, and are in the plan.
  abbrev pub Waiting : Mission F → List String → Type 0
  Waiting m ds = (k : String) → contains k ds ≡ true → has_part m.plan k ≡ true

  pub Turn-Waiting :
      (s : Supervisor F) (m m' : Mission F) (d : String) (ds : List String)
      → contains d ds ≡ false
      → Waiting m (d ∷ ds)
      → Turn s m d m'
      → Waiting m' ds
  Turn-Waiting s m m' d ds fresh w (stays _ e) k h = rw e (w k (ground arith))
  Turn-Waiting s m m' d ds fresh w (drops _ e) k h = rw e (w k (ground arith))
  Turn-Waiting s m m' d ds fresh w (goes r _ _ moved _ _ _) k h =
      ground (arith, moved.parts k, w k, eq_iff d k)

  Turn-size :
      (s : Supervisor F) (m m' : Mission F) (d : String)
      → Turn s m d m'
      → size m'.plan ≡ size m.plan
  Turn-size s m m' d (stays _ e) = rw e refl
  Turn-size s m m' d (drops _ e) = rw e refl
  Turn-size s m m' d (goes r _ _ moved _ _ _) = moved.same_size

  pub relieve_all-IsSound :
      (s : Supervisor F) (ds : List String) (m : Mission F)
      → IsSound m
      → Distinct ds
      → Waiting m ds
      → let m' = (relieve_all s ds m).0 in IsSound m' × (size m'.plan ≡ size m.plan)
  unfolding relieve_all
  relieve_all-IsSound s [] m v d w = (v, refl)
  relieve_all-IsSound s (d ∷ ds) m v (fresh, dd) w =
      let m₁ = (relieve s m d).0 in
      let there : has_part m.plan d ≡ true = w d (ground (arith, eq_refl d)) in
      let turn = relieve-Turn s m d v there in
      let (v', n) =
        relieve_all-IsSound s ds m₁ (Turn-IsSound s m m₁ d v there turn) dd
          (Turn-Waiting s m m₁ d ds fresh w turn) in
      (v', n ∙ Turn-size s m m₁ d turn)

  pub relieve_all_settles :
      (s : Supervisor F) (ds : List String) (m : Mission F) (k : String)
      → IsOrdered f
      → IsSound m
      → Distinct ds
      → Waiting m ds
      → (contains k ds ≡ false → has_part m.plan k ≡ true → must_go s m k ≡ false)
      → has_part (relieve_all s ds m).0.plan k ≡ true
      → must_go s (relieve_all s ds m).0 k ≡ false
  unfolding relieve_all
  relieve_all_settles s [] m k ord v d w rest p = rest refl p
  relieve_all_settles s (d ∷ ds) m k ord v (fresh, dd) w rest p =
      let m₁ = (relieve s m d).0 in
      let there : has_part m.plan d ≡ true = w d (ground (arith, eq_refl d)) in
      let turn = relieve-Turn s m d v there in
      relieve_all_settles s ds m₁ k ord (Turn-IsSound s m m₁ d v there turn) dd
        (Turn-Waiting s m m₁ d ds fresh w turn)
        (λ new q. Turn-settles s m m₁ d k ord turn q (λ other. rest (ground arith))) p

  -- A loop in which no drone must go changes nothing.
  pub relieve_all_idle :
      (s : Supervisor F) (ds : List String) (m : Mission F)
      → ((k : String) → contains k ds ≡ true → must_go s m k ≡ false)
      → relieve_all s ds m ≡ (m, [])
  unfolding relieve_all relieve
  relieve_all_idle s [] m h = refl
  relieve_all_idle s (d ∷ ds) m h =
      ground (
        arith,
        h d (ground (arith, eq_refl d)),
        relieve_all_idle s ds m (λ k i. h k (ground arith)),
      )

  relieve-sent_home :
      (s : Supervisor F) (m : Mission F) (d : String)
      → sent_home (relieve s m d).1 ≡ (if must_go s m d then d ∷ [] else [])
  unfolding relieve sent_home
  relieve-sent_home s m d = elim (Option-cases (replacement s m)) [
    | inl e ↦ ground arith
    | inr (r, e) ↦
        ground (arith, (hand_over-messages (record m { retired = add_id d m.retired }) d r).0)
  ]

  keep-must_go :
      (s : Supervisor F) (m m' : Mission F) (d : String) (ds : List String)
      → contains d ds ≡ false
      → Turn s m d m'
      → keep (must_go s m') ds ≡ keep (must_go s m) ds
  keep-must_go s m m' d [] fresh turn = refl
  keep-must_go s m m' d (k ∷ ds) fresh turn = ground (
    arith,
    Turn-must_go s m m' d k (ground (arith, eq_iff d k, eq_iff k d)) turn,
    keep-must_go s m m' d ds (ground arith) turn,
  )

  pub relieve_all-sent_home :
      (s : Supervisor F) (ds : List String) (m : Mission F)
      → IsSound m
      → Distinct ds
      → Waiting m ds
      → sent_home (relieve_all s ds m).1 ≡ keep (must_go s m) ds
  unfolding relieve_all
  relieve_all-sent_home s [] m v d w = unfold sent_home in refl
  relieve_all-sent_home s (d ∷ ds) m v (fresh, dd) w =
      let m₁ = (relieve s m d).0 in
      let there : has_part m.plan d ≡ true = w d (ground (arith, eq_refl d)) in
      let turn = relieve-Turn s m d v there in
      ground (
        arith,
        sent_home-append (relieve s m d).1 (relieve_all s ds m₁).1,
        relieve-sent_home s m d,
        relieve_all-sent_home s ds m₁ (Turn-IsSound s m m₁ d v there turn) dd
            (Turn-Waiting s m m₁ d ds fresh w turn),
        keep-must_go s m m₁ d ds fresh turn,
      )
