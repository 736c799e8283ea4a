-- ===== src/SwarmClient/Outcomes.antt =====
-- How many times a write acts, and what its outcome says of that (swarm_client.py `_write`).
use swarmsim.Json.{Conversions, Json}
use swarmsim.Float.{Float}
use swarmsim.Base.{some, true, Option, String, ℕ, ◌≡◌, ◌<◌, refl}
use swarmsim.SwarmClient.Writes.{Tries, refused_after}
use swarmsim.SwarmClient.{
  write, Request, Answer, Reason, build_request, url_error, refused, raised, outcome_of,
  unreachable,
}

module _ {F S : Type 0} ⦃f : Float F⦄ (python : Conversions F)
    (serve : S → Request F → S × Answer F) where
  -- If the first attempts of a write had no known outcome, and the next one is refused, the write
  -- raises SwarmUnreachable, whatever the API did on the first ones.
  pub write_unreachable :
      (token : Option String) (key : String) (s s' : S) (method path : String)
      (body : Option (Json F)) (n : ℕ) (reason : Reason)
      → n < 3
      → Tries python serve (build_request method path body token (some key)) n s s'
      → (serve s' (build_request method path body token (some key))).1 ≡ url_error reason
      → refused reason ≡ true
      → write python serve token key s method path body
        ≡ ((serve s' (build_request method path body token (some key))).0, raised unreachable)
  unfolding write outcome_of
  write_unreachable token key s s' method path body n reason few tries e r =
      refused_after python serve 3 n s s' (build_request method path body token (some key)) few
        tries (rw (e, outcome_of, r) refl)
