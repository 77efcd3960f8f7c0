-- ===== src/Balancer/State/Health.antt =====
-- The health of a backend as its requests succeed and fail.
use llm_proxy.Base.{ℕ, suc, ◌<◌, ◌≡◌, Bool, List, [], ◌∷◌, if◌then◌else◌, ltb, arith}
use llm_proxy.Base.Int.{ℤ, pos}
use llm_proxy.Base.Time.{Time}
use llm_proxy.Balancer.State.{BackendState, record_request_outcome}

-- The failures since the last success, counted from `n`.
unfoldable pub trailing : ℕ → List (Time × Bool) → ℕ
trailing n [] = n
trailing n ((_, ok) ∷ os) = trailing (if ok then 0 else suc n) os

module _ {F : Type 0} where
  -- `RecordRequestOutcome` for a history of outcomes, with a threshold of `limit` failures.
  unfoldable pub record_outcomes : ℤ → ℤ → List (Time × Bool) → BackendState F → BackendState F
  unfolding record_request_outcome
  record_outcomes limit ramp [] b = b
  record_outcomes limit ramp ((now, ok) ∷ os) b =
      record_outcomes limit ramp os (record_request_outcome now ok limit ramp b)

  -- The invariant: healthy exactly while the failures in a row are below the threshold.
  record Agrees (limit : ℕ) (b : BackendState F) : Type 0 where
    agree : b.healthy ≡ ltb b.consecutive_failures limit

  record_request_outcome-Agrees :
      (now : Time) (ok : Bool) (limit : ℕ) (ramp : ℤ) (b : BackendState F)
      → 0 < limit
      → Agrees limit b
      → Agrees limit (record_request_outcome now ok (pos limit) ramp b)
        × ((record_request_outcome now ok (pos limit) ramp b).consecutive_failures
            ≡ (if ok then 0 else suc b.consecutive_failures))
  unfolding record_request_outcome
  record_request_outcome-Agrees now ok limit ramp b h a =
      (record { agree = ground arith }, ground arith)

  -- From a backend whose health agrees with its failure counter, any history of request outcomes
  -- leaves it healthy exactly if fewer failures than the threshold, which is positive, follow the
  -- last success.
  pub healthy-record_outcomes :
      (limit : ℕ) (ramp : ℤ) (os : List (Time × Bool)) (b : BackendState F)
      → 0 < limit
      → b.healthy ≡ ltb b.consecutive_failures limit
      → (record_outcomes (pos limit) ramp os b).healthy
        ≡ ltb (trailing b.consecutive_failures os) limit
  unfolding record_outcomes trailing
  healthy-record_outcomes limit ramp [] b h a = a
  healthy-record_outcomes limit ramp ((now, ok) ∷ os) b h a =
      let (a', e) = record_request_outcome-Agrees now ok limit ramp b h (record { agree = a }) in
      rw (← e) (
        healthy-record_outcomes limit ramp os (record_request_outcome now ok (pos limit) ramp b) h
          a'.agree)
