-- ===== src/SwarmClient/Writes.antt =====
-- What a write of the client does and what its caller learns (swarm_client.py `_write`).
use swarmsim.Base.{
  some, true, false, inl, inr, refl, zero, suc, ℕ, Bool, Bool-cases, String, Option, ◌≡◌, ◌≤◌, ◌<◌,
  ◌+◌, arith, ◌==◌, ◌⊎◌,
}
use text.Mathlib.TextLemmas.{nil-append}
use swarmsim.Dict.{lookup, lookup-insert}
use swarmsim.Float.{Float}
use swarmsim.Json.{Json, Conversions}
use swarmsim.SwarmClient.{
  Answer, Outcome, Raised, Request, outcome_of, send, attempt, build_request, retried, returned,
  raised, outcome_unknown, unreachable,
}

-- The key that a request carries.
module _ {F : Type 0} where
  abbrev pub key_of : Request F → Option String
  key_of r = lookup "Idempotency-Key" r.headers

  -- The loop of a write goes on after such an outcome.
  abbrev pub goes_on : Outcome F → Bool
  goes_on (returned v) = false
  goes_on (raised e) = retried e

  pub key_of-build_request :
      (method path : String) (body : Option (Json F)) (token : Option String) (key : String)
      → (key == "") ≡ false
      → key_of (build_request method path body token (some key)) ≡ some key
  unfolding build_request
  key_of-build_request method path body token key h = rw h (simp (lookup-insert, nil-append))

  Outcome-cases :
      (o : Outcome F) → ((v : Json F) × (o ≡ returned v)) ⊎ ((e : Raised F) × (o ≡ raised e))
  Outcome-cases (returned v) = inl (v, refl)
  Outcome-cases (raised e) = inr (e, refl)

zero_or_more : (n : ℕ) → (n ≡ 0) ⊎ (0 < n)
zero_or_more zero = inl refl
zero_or_more (suc n) = inr (omega arith)

module _ {F S : Type 0} ⦃f : Float F⦄ (python : Conversions F)
    (serve : S → Request F → S × Answer F) where
  -- The API answered a request some times over, each time so that the client tries again.
  pub data Tries (request : Request F) : ℕ → S → S → Type 0 where
    no_try : (s : S) → Tries request zero s s
    then_try :
        (n : ℕ) (s s' : S)
        → Tries request n (serve s request).0 s'
        → goes_on (outcome_of python (serve s request).1) ≡ true
        → Tries request (suc n) s s'

  -- How a run of attempts ends: with none left, or by an outcome that ends it.
  pub data Ends (request : Request F) (left : ℕ) (s : S) (end : S × Outcome F) : Type 0 where
    gave_up :
        (s' : S)
        → Tries request left s s'
        → end ≡ (s', raised outcome_unknown)
        → Ends request left s end
    settled :
        (n : ℕ) (s' : S)
        → n < left
        → Tries request n s s'
        → end ≡ ((serve s' request).0, outcome_of python (serve s' request).1)
        → goes_on end.1 ≡ false
        → Ends request left s end

  longer :
      (request : Request F) (left : ℕ) (s : S) (end : S × Outcome F)
      → goes_on (outcome_of python (serve s request).1) ≡ true
      → Ends request left (serve s request).0 end
      → Ends request (suc left) s end
  longer request left s end on (gave_up s' tries e) = gave_up s' (then_try left s s' tries on) e
  longer request left s end on (settled n s' few tries e done) =
      settled (suc n) s' (omega arith) (then_try n s s' tries on) e done

  pub attempt-Ends :
      (left : ℕ) (s : S) (request : Request F)
      → Ends request left s (attempt python serve left s request)
  unfolding attempt send
  attempt-Ends zero s request = gave_up s (no_try s) refl
  attempt-Ends (suc left) s request = elim (Outcome-cases (outcome_of python (serve s request).1)) [
    | inl (v, e) ↦ rw (e, attempt) (settled zero s (omega arith) (no_try s) (rw e refl) refl)
    | inr (x, e) ↦ elim (Bool-cases (retried x)) [
      | inl on ↦
          rw (e, attempt, on)
            (longer request left s (attempt python serve left (serve s request).0 request) (rw e on)
              (attempt-Ends left (serve s request).0 request))
      | inr off ↦ rw (e, attempt, off) (settled zero s (omega arith) (no_try s) (rw e refl) off)
    ]
  ]

  -- Attempts that go on, and one that is refused.
  pub refused_after :
      (left n : ℕ) (s s' : S) (request : Request F)
      → n < left
      → Tries request n s s'
      → outcome_of python (serve s' request).1 ≡ raised unreachable
      → attempt python serve left s request ≡ ((serve s' request).0, raised unreachable)
  unfolding attempt send retried
  refused_after zero n s s' request few tries e = absurd (omega arith)
  refused_after (suc left) _ _ _ request few (no_try s) e = rw (e, attempt) refl
  refused_after (suc left) _ _ _ request few (then_try n s s' tries on) e =
      elim (Outcome-cases (outcome_of python (serve s request).1)) [
        | inl (v, e') ↦ absurd (cc)
        | inr (x, e') ↦
            let on' : retried x ≡ true = rw e' at on in
            rw (e', attempt, on')
              (refused_after left n (serve s request).0 s' request (omega arith) tries e)
      ]

  -- What the API does for a key, counted: it acts at most once more for a request, and not again
  -- for a key that it has acted for, to which it replays its first answer; and a reply means that
  -- it has acted.
  pub record ReplaysKeys (acted : S → String → ℕ) : Type 0 where
    pub at_most_once :
        (s : S) (r : Request F) (key : String) → acted (serve s r).0 key ≤ acted s key + 1
    pub replays :
        (s : S) (r : Request F) (key : String)
        → key_of r ≡ some key
        → 0 < acted s key
        → acted (serve s r).0 key ≡ acted s key
    pub acts :
        (s : S) (r : Request F) (key : String) (v : Json F)
        → key_of r ≡ some key
        → outcome_of python (serve s r).1 ≡ returned v
        → 0 < acted (serve s r).0 key

  module _ (acted : S → String → ℕ) (api : ReplaysKeys acted) where
    pub serve_once :
        (s : S) (r : Request F) (key : String)
        → key_of r ≡ some key
        → acted s key ≤ 1
        → acted (serve s r).0 key ≤ 1
    serve_once s r key k few = elim (zero_or_more (acted s key)) [
      | inl none_yet ↦ omega (arith, api.at_most_once s r key, none_yet)
      | inr some_yet ↦ omega (arith, api.replays s r key k some_yet)
    ]

    pub acted_once :
        (r : Request F) (key : String) (n : ℕ) (s s' : S)
        → key_of r ≡ some key
        → acted s key ≤ 1
        → Tries r n s s'
        → acted s' key ≤ 1
    acted_once r key _ _ _ k few (no_try s) = few
    acted_once r key _ _ _ k few (then_try n s s' tries on) =
        acted_once r key n (serve s r).0 s' k (serve_once s r key k few) tries
