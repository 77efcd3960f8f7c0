-- ===== src/Tests/Groups.antt =====
-- The groups, the health of backends and the statistics of requests on small inputs.
use llm_proxy.Base.{
  ℕ, ◌*◌, ◌+◌, ◌≡◌, refl, Bool, true, false, List, [], ◌∷◌, none, some, ok, arith, In, length, keep,
  ltb, if◌then◌else◌, lookup,
}
use llm_proxy.Base.Int.{pos, pos_part, neg_part}
use llm_proxy.Base.Time.{Time}
use llm_proxy.Json.{Object, Items, end, field, str, arr, cons, nil, get, ◌+++◌}
use llm_proxy.Balancer.Flow.{Event, sent, ended}
use llm_proxy.Balancer.State.{BackendState, is_failing}
use llm_proxy.Balancer.State.Health.{record_outcomes, trailing, healthy-record_outcomes}
use llm_proxy.Balancer.Store
use llm_proxy.Balancer.Store.{AffinityEntry}
use llm_proxy.Balancer.Selectors.{Sticky, sticky, find_by_id}
use llm_proxy.Balancer.Group.{Group, Balancer, find_group, find_state}
use llm_proxy.Balancer.Group.Pool.{pool_of, pool_of-lem, select, select-available}
use llm_proxy.Balancer.Group.Loops.{
  incrs, decrs, incr_count, decr_count, run_loop, Runs, over, reorders, runs, swaps, in_flight_sum,
  knows, in_flight_sum-Runs,
}
use llm_proxy.Balancer.Group.Probe.{probe_cycle, probe_cycle-full_share}
use llm_proxy.Balancer.Group.Failover.{drop_pin, drop_pin-cools}
use llm_proxy.Balancer.Affinity.{first_user, first_user_message_key, first_user_message_key-append}
use llm_proxy.Tests.Data.{
  fixed, pool, selector, group, backend_with, second, body, messages, user_message,
}

program : Unit {0}
unfolding find_group find_state find_by_id get first_user ◌+++◌ Store.get Store.expired lookup
    is_failing
program = tt

abbrev a : BackendState ℕ
a = backend_with "a" true 2

abbrev balancer : Balancer ℕ
balancer = group ∷ []

abbrev history : List (Time × Event)
history = (1, sent) ∷ (2, sent) ∷ (3, ended true false) ∷ []

abbrev outcomes : List (Time × Bool)
outcomes = (1, false) ∷ (2, true) ∷ (3, false) ∷ (4, false) ∷ (5, false) ∷ []

healthy-record_outcomes_example :
    (record_outcomes (pos 3) (pos 0) outcomes a).healthy ≡ ltb (trailing 0 outcomes) 3
healthy-record_outcomes_example = healthy-record_outcomes 3 (pos 0) outcomes a (omega arith) refl

pool_of-lem_example :
    pool_of second pool
    ≡ (if ltb 0 (length (keep (λ s. s.healthy) pool)) then keep (λ s. s.healthy) pool else pool)
pool_of-lem_example = pool_of-lem second pool

found_group : find_group "gpus" balancer ≡ some group
unfolding program
found_group = refl

select-available_example :
    (c : BackendState ℕ) × ((select fixed second "gpus" "k" none balancer).0 ≡ ok c)
    × In c pool
    × ((x : BackendState ℕ) → In x pool → x.healthy ≡ true → c.healthy ≡ true)
select-available_example =
    select-available fixed second "gpus" "k" none balancer group found_group (omega arith)

found_state : find_state balancer "a" ≡ some a
unfolding program
found_state = refl

abbrev twice : Balancer ℕ
twice = group ∷ record group { name = "spare" } ∷ []

-- The first loop goes over the groups the other way round, the second does not.
counted :
    Runs "a"
      (incrs ∷ decrs ∷ [])
      twice
      (run_loop "a" decrs (run_loop "a" incrs (record group { name = "spare" } ∷ group ∷ [])))
counted = reorders swaps (runs (runs over))

held_twice : knows "a" twice ≡ true
unfolding program
held_twice = refl

in_flight_sum-Runs_example :
    (let last =
        run_loop "a" decrs (run_loop "a" incrs (record group { name = "spare" } ∷ group ∷ [])) in
      pos_part (in_flight_sum "a" last)
        + neg_part (in_flight_sum "a" twice)
        + decr_count (incrs ∷ decrs ∷ [])
      ≡ pos_part (in_flight_sum "a" twice)
        + neg_part (in_flight_sum "a" last)
        + incr_count (incrs ∷ decrs ∷ []))
in_flight_sum-Runs_example = in_flight_sum-Runs "a" (incrs ∷ decrs ∷ []) twice _ held_twice counted

probe_cycle-full_share_example :
    (t : BackendState ℕ) × (find_state (probe_cycle second "a" (pos 60) true (5, balancer)).1 "a"
      ≡ some t)
    × (t.healthy ≡ true)
    × (t.ramping_up ≡ false)
probe_cycle-full_share_example = probe_cycle-full_share second "a" (pos 60) 5 balancer a found_state

-- A group in which the key "k" is pinned to the backend "a".
abbrev pin : AffinityEntry
pin = record { backend_id = "a"; last_seen = 0 }

abbrev pinned_selector : Sticky ℕ
pinned_selector = record selector {
  store = record selector.store { entries = ("k", pin) ∷ []; lru = "k" ∷ [] };
}

abbrev pinned_group : Group ℕ
pinned_group = record group { selector = sticky pinned_selector }

pin_found : Store.get pinned_selector.store second "k" ≡ some pin
unfolding program
pin_found = refl

pinned_state : find_by_id pool "a" ≡ some a
unfolding program
pinned_state = refl

drop_pin-cools_example :
    ((s : Sticky ℕ) × ((drop_pin second "k" pinned_group).selector ≡ sticky s)
      × (Store.get s.store (2 * second) "k" ≡ none))
    × ((t : BackendState ℕ) × (find_by_id (drop_pin second "k" pinned_group).states "a" ≡ some t)
        × (is_failing (2 * second) t ≡ true))
drop_pin-cools_example =
    drop_pin-cools second (2 * second) "k" pinned_group pinned_selector pin a refl pin_found
      pinned_state (omega arith)

first_found :
    first_user messages ≡ some (field "role" (str "user") (field "content" (str "Hello") end))
unfolding program
first_found = refl

abbrev later_messages : Items ℕ
later_messages = messages +++ cons (user_message "And then?") nil

abbrev later_body : Object ℕ
later_body = field "messages" (arr later_messages) end

body_messages : get "messages" body ≡ some (arr messages)
unfolding program
body_messages = refl

later_body_messages : get "messages" later_body ≡ some (arr later_messages)
unfolding program
later_body_messages = refl

first_user_message_key-append_example :
    first_user_message_key (λ n. "") later_body 2048 ≡ first_user_message_key (λ n. "") body 2048
first_user_message_key-append_example =
    first_user_message_key-append (λ n. "") body later_body messages
      (cons (user_message "And then?") nil) 2048 _ body_messages later_body_messages first_found
