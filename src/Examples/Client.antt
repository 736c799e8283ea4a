-- ===== src/Examples/Client.antt =====
-- An API that does not answer the first request in time, and is gone at the second.
use swarmsim.Base.{ℕ, suc, none, some, refl, String, ◌≡◌, zero, arith}
use swarmsim.Examples.Numbers.{ℤ, float_of_whole}
use swarmsim.Json.{IsFaithful, Json, Conversions, text}
use swarmsim.SwarmClient.{
  Answer, Request, write, replied, value_of, timed_out, url_error, connection_refused, raised,
  unreachable, build_request, outcome_of, retried, refused,
}
use swarmsim.SwarmClient.Writes.{no_try, then_try}
use swarmsim.SwarmClient.Outcomes.{write_unreachable}

abbrev pub python : Conversions ℤ
python = record {
  str_of = λ v. elim v [ text s ↦ s | _ ↦ "" ];
  uuid_of = λ s. some s;
  phrase_of = λ status. "Error";
  float_of_text = λ s. none;
  int_of_text = λ s. none;
  whole_of = λ x. some x;
}

pub python-IsFaithful : IsFaithful python
python-IsFaithful = record { str_of-text = λ s. refl }

-- The requests that it has received.
abbrev lost : ℕ → Request ℤ → ℕ × Answer ℤ
lost zero r = (1, timed_out)
lost (suc n) r = (suc n, url_error connection_refused)

-- An API that lands the swarm on the first request, but whose first answer is lost.
abbrev slow : ℕ → Request ℤ → ℕ × Answer ℤ
slow zero r = (1, timed_out)
slow (suc n) r = (suc n, replied (value_of (text "landing")))

abbrev acted : ℕ → String → ℕ
acted n key = n

-- SwarmUnreachable is raised, and the API has received a request.
write_unreachable_example :
    write python lost none "mcp-1" 0 "POST" "/api/swarm/land" none ≡ (1, raised unreachable)
unfolding outcome_of retried build_request refused
write_unreachable_example =
    write_unreachable python lost none "mcp-1" 0 1 "POST" "/api/swarm/land" none 1
      connection_refused (omega arith) (then_try 0 0 1 (no_try 1) refl) refl refl
