-- ===== src/Balancer/Flow.antt =====
-- internal/balancer/flow_stats.go: the counters of one backend's requests. The floating-point
-- figures of a snapshot are quotients of these counters, so the model's snapshot has the counters
-- and leaves the division to its reader (Balancer/Select).
use llm_proxy.Base.{ℕ, suc, ◌+◌, ◌-◌, ◌≡◌, Bool, List, [], ◌∷◌, if◌then◌else◌, arith, number_eq}
use llm_proxy.Base.Int.{ℤ}
use llm_proxy.Base.Time.{Time}

-- The sum of times to the first token is a sum of milliseconds that every caller gives as 0.
pub record FlowStats : Type 0 where
  pub window_seconds : ℤ
  pub dispatched : ℕ
  pub completed : ℕ
  pub success : ℕ
  pub failure : ℕ
  pub timeout : ℕ
  pub last_dispatched : Time
  pub last_completed : Time
  pub last_success : Time

unfoldable pub new_flow_stats : ℤ → FlowStats
new_flow_stats window = record {
  window_seconds = window;
  dispatched = 0;
  completed = 0;
  success = 0;
  failure = 0;
  timeout = 0;
  last_dispatched = 0;
  last_completed = 0;
  last_success = 0;
}

unfoldable pub dispatch : Time → FlowStats → FlowStats
dispatch now f = record f { dispatched = f.dispatched + 1; last_dispatched = now }

-- `Complete(success, timedOut, _)`
unfoldable pub complete : Time → Bool → Bool → FlowStats → FlowStats
complete now ok timed_out f =
    let g = record f { completed = f.completed + 1; last_completed = now } in
    if timed_out
    then record g { timeout = g.timeout + 1 }
    else if ok
    then record g { success = g.success + 1; last_success = now }
    else record g { failure = g.failure + 1 }

-- The integer fields of `FlowSnapshot`.
pub record FlowSnapshot : Type 0 where
  pub dispatched : ℕ
  pub completed : ℕ
  pub success : ℕ
  pub failure : ℕ
  pub timeout : ℕ
  pub stalled : ℕ

-- `Stalled` is dispatched - completed, or 0 where that is negative, as `-` on ℕ is.
unfoldable pub get_stats : FlowStats → FlowSnapshot
get_stats f = record {
  dispatched = f.dispatched;
  completed = f.completed;
  success = f.success;
  failure = f.failure;
  timeout = f.timeout;
  stalled = f.dispatched - f.completed;
}

pub data Event : Type 0 where
  sent : Event
  ended : Bool → Bool → Event

unfoldable pub record_event : Time × Event → FlowStats → FlowStats
unfolding dispatch complete
record_event (now, sent) f = dispatch now f
record_event (now, ended ok timed_out) f = complete now ok timed_out f

unfoldable pub record_events : List (Time × Event) → FlowStats → FlowStats
unfolding record_event
record_events [] f = f
record_events (e ∷ es) f = record_events es (record_event e f)

-- How many events of a history are dispatches, and how many are completions.
unfoldable pub sent_count : List (Time × Event) → ℕ
sent_count [] = 0
sent_count ((_, sent) ∷ es) = suc (sent_count es)
sent_count ((_, ended _ _) ∷ es) = sent_count es

unfoldable pub ended_count : List (Time × Event) → ℕ
ended_count [] = 0
ended_count ((_, sent) ∷ es) = ended_count es
ended_count ((_, ended _ _) ∷ es) = suc (ended_count es)

pub record IsBalanced (f : FlowStats) : Type 0 where
  pub outcomes : f.success + f.failure + f.timeout ≡ f.completed

complete_counts :
    (now : Time) (ok timed_out : Bool) (f : FlowStats)
    → IsBalanced f
    → IsBalanced (complete now ok timed_out f)
      × ((complete now ok timed_out f).dispatched ≡ f.dispatched)
      × ((complete now ok timed_out f).completed ≡ f.completed + 1)
unfolding complete
complete_counts now ok timed_out f h =
    (record { outcomes = ground arith }, ground arith, ground arith)

record_events_counts :
    (es : List (Time × Event)) (f : FlowStats)
    → IsBalanced f
    → IsBalanced (record_events es f)
      × ((record_events es f).dispatched ≡ f.dispatched + sent_count es)
      × ((record_events es f).completed ≡ f.completed + ended_count es)
unfolding record_events sent_count ended_count dispatch
record_events_counts [] f h = (h, omega arith, omega arith)
record_events_counts ((now, sent) ∷ es) f h =
    let (b, d, c) = record_events_counts es (dispatch now f) (record { outcomes = h.outcomes }) in
    (b, omega (arith, d), omega (arith, c))
record_events_counts ((now, ended ok timed_out) ∷ es) f h =
    let (b', d', c') = complete_counts now ok timed_out f h in
    let (b, d, c) = record_events_counts es (complete now ok timed_out f) b' in
    (b, omega (arith, d, d'), omega (arith, c, c'))

-- After any history on new statistics, the three outcomes add up to the completed requests, and
-- the stalled ones are those sent and not ended, none if more ended than were sent.
stalled-record_events :
    (window : ℤ) (es : List (Time × Event))
    → let s = get_stats (record_events es (new_flow_stats window)) in
      (s.success + s.failure + s.timeout ≡ s.completed)
      × (s.stalled ≡ sent_count es - ended_count es)
unfolding get_stats new_flow_stats
stalled-record_events window es =
    let (b, d, c) =
      record_events_counts es (new_flow_stats window) (record { outcomes = omega arith }) in
    (b.outcomes, omega (arith, d, c))
