-- ===== src/Tests/Affinity.antt =====
-- The affinity store, the selectors and the session key on small inputs.
use llm_proxy.Base.{
  ℕ, ◌<◌, ◌*◌, text_iff, ◌≡◌, ◌≢◌, refl, true, false, List, [], ◌∷◌, none, some, String, arith,
  here, there, length, if◌then◌else◌, take, lookup, insert, delete,
}
use llm_proxy.Base.Int.{pos, int_ltb}
use llm_proxy.Base.Time.{since}
use llm_proxy.Base.Text.{bytes}
use llm_proxy.Balancer.Store.{
  Store, new_in_memory_store, set, get, touch, remove, size, evict_expired, migrate, expired,
  is_foreign, move_to_front, evict_back, over_capacity, evict_loop, remove_all, keys_where,
  remove_where,
}
use llm_proxy.Balancer.Store.Lists.{has_key, member, without, last?, drop_last}
use llm_proxy.Balancer.Store.Invariant.{InSync, sets, evicts, run, run-new-InSync}
use llm_proxy.Balancer.Store.Recency.{view, forget, room, set-view}
use llm_proxy.Balancer.Store.Lookup.{get-set_self}
use llm_proxy.Balancer.State.{
  BackendState, is_failing, is_ramping_up, is_overloaded_by_metrics, get_effective_load,
}
use llm_proxy.Balancer.Flow.{get_stats}
use llm_proxy.Balancer.Select.{
  pick_least, pick_tied, least_tied, pick_least_loaded, load_score, cache_pressure, flow_penalty,
  success_rate, is_overloaded,
}
use llm_proxy.Balancer.Selectors.{
  select_sticky, pinned, find_by_id, choose, is_ready, is_warming, key_hash, pin_choice, stale_of,
}
use llm_proxy.Balancer.Selectors.Choice.{IsBestFor, choose-IsBestFor}
use llm_proxy.Balancer.Selectors.Pinning.{select_sticky_again}
use llm_proxy.Balancer.Group.Failover.{select_sticky-avoids_failing}
use llm_proxy.Tests.Data.{fixed, pool, selector, empty_store, backend_with, second}

program : Unit {0}
unfolding new_in_memory_store set get touch remove size evict_expired migrate expired is_foreign
    move_to_front evict_back over_capacity evict_loop remove_all keys_where remove_where has_key
    member without last? drop_last forget is_failing is_ramping_up is_overloaded_by_metrics
    get_effective_load get_stats pick_least pick_tied least_tied pick_least_loaded load_score
    cache_pressure flow_penalty success_rate is_overloaded select_sticky pinned find_by_id choose
    is_ready is_warming key_hash pin_choice stale_of lookup insert delete bytes
program = tt

abbrev one_pin : Store
one_pin = run (new_in_memory_store (pos 100) (pos 2)) ((5, sets "k" "a") ∷ [])

one_pin-InSync : InSync one_pin
one_pin-InSync = run-new-InSync (pos 100) (pos 2) ((5, sets "k" "a") ∷ [])

empty-InSync : InSync empty_store
unfolding run new_in_memory_store program
empty-InSync = run-new-InSync (pos (300 * second)) (pos 2) []

run-new-InSync_example : InSync (
    run
      (new_in_memory_store (pos 100) (pos 1))
      ((1, sets "k" "a") ∷ (2, sets "j" "b") ∷ (300, evicts) ∷ []))
run-new-InSync_example =
    run-new-InSync (pos 100) (pos 1) ((1, sets "k" "a") ∷ (2, sets "j" "b") ∷ (300, evicts) ∷ [])

set-view_example : view (set empty_store 7 "j" "b") ≡ (
    if has_key "j" empty_store.entries
    then ("j", some (record { backend_id = "b"; last_seen = 7 })) ∷ forget "j" (view empty_store)
    else take
        (room empty_store)
        (("j", some (record { backend_id = "b"; last_seen = 7 })) ∷ view empty_store))
set-view_example = set-view empty_store 7 "j" "b" empty-InSync

get-set_self_example : get (set empty_store 7 "j" "b") 9 "j" ≡ (
    if int_ltb empty_store.ttl (since 9 7)
    then none
    else some (record { backend_id = "b"; last_seen = 7 }))
get-set_self_example = get-set_self empty_store 7 9 "j" "b" empty-InSync (omega arith)

-- The two backends have 2 and 1 requests in flight.
least_loaded :
    select_sticky fixed selector second none "" pool ≡ (some (backend_with "b" true 1), selector)
unfolding program
least_loaded = refl

nonempty : 0 < length pool
nonempty = omega arith

choose-IsBestFor_example :
    (c : BackendState ℕ) × (choose fixed second (pos 30) 0 pool ≡ some c)
    × IsBestFor fixed second (pos 30) 0 pool c
choose-IsBestFor_example = choose-IsBestFor fixed second (pos 30) 0 pool nonempty

-- The first request of a session goes to the backend with fewer requests, and so does the second
-- one a second later, although the other backend is idle by then.
abbrev a : BackendState ℕ
a = backend_with "a" true 0

abbrev b : BackendState ℕ
b = backend_with "b" true 1

abbrev b' : BackendState ℕ
b' = backend_with "b" true 5

chosen : (select_sticky fixed selector second none "k" pool).0 ≡ some b
unfolding program
chosen = refl

ready : is_ready fixed second b ≡ true
unfolding program
ready = refl

still_there : find_by_id (a ∷ b' ∷ []) b.id ≡ some b'
unfolding program
still_there = refl

still_up : is_failing (2 * second) b' ≡ false
unfolding program
still_up = refl

not_overloaded :
    is_overloaded fixed (2 * second) (pos 8) 0 (stale_of none (pos (30 * second))) b' ≡ false
unfolding program
not_overloaded = refl

not_empty : ◌≢◌ {A = String} "k" ""
not_empty e = ground (arith, text_iff "k" "")

select_sticky_again_example :
    (select_sticky fixed
      (select_sticky fixed selector second none "k" pool).1
      (2 * second)
      none
      "k"
      (a ∷ b' ∷ [])).0
    ≡ some b'
select_sticky_again_example =
    select_sticky_again fixed selector second (2 * second) none none "k" pool (a ∷ b' ∷ []) b b'
      not_empty empty-InSync (omega arith) refl chosen ready still_there still_up not_overloaded

-- One backend is in its cooldown, and the other one is chosen.
abbrev cooling_pool : List (BackendState ℕ)
cooling_pool = record (backend_with "a" true 0) { recent_failure_until = 10 * second } ∷ b' ∷ []

live : is_failing second b' ≡ false
unfolding program
live = refl

chosen_live : (select_sticky fixed selector second none "k" cooling_pool).0 ≡ some b'
unfolding program
chosen_live = refl

select_sticky-avoids_failing_example : is_failing second b' ≡ false
select_sticky-avoids_failing_example =
    select_sticky-avoids_failing fixed selector second none "k" cooling_pool b' b'
      (there (here refl)) live chosen_live
