-- ===== src/Balancer/Group/Account.antt =====
-- The requests in flight: what `Incr`, `Dispatch` and `CompleteAndDecr` leave in the counters.
use llm_proxy.Base.{
  ℕ, suc, ◌+◌, ◌≡◌, refl, ◌∙◌, arith, text_self, Bool, true, false, List, [], ◌∷◌, some, String,
  text_eq,
}
use llm_proxy.Base.Int.{ℤ, pos, negsuc, ◌+ℤ◌, pos_part, neg_part}
use llm_proxy.Base.Time.{Time}
use llm_proxy.Balancer.State.{BackendState, record_request_outcome}
use llm_proxy.Balancer.Group.{
  Group, Balancer, update_first, find_state, incr, decr, dispatch, complete, record_outcome,
  complete_and_decr,
}
use llm_proxy.Balancer.Flow
use llm_proxy.Balancer.State.{enter_ramp, demote}
use llm_proxy.Balancer.Group.Lookup.{find_state-update_first, find_state-update_each}

-- A request to one backend starts, or it ends with an outcome.
pub data Action : Type 0 where
  starts : Action
  ends : Bool → Bool → Action

-- How many of a history's actions start a request, and how many end one.
unfoldable pub start_count : List (Time × Action) → ℕ
start_count [] = 0
start_count ((_, starts) ∷ acts) = suc (start_count acts)
start_count ((_, ends _ _) ∷ acts) = start_count acts

unfoldable pub end_count : List (Time × Action) → ℕ
end_count [] = 0
end_count ((_, starts) ∷ acts) = end_count acts
end_count ((_, ends _ _) ∷ acts) = suc (end_count acts)

pub add-parts :
    (a b : ℤ)
    → pos_part (a +ℤ b) + neg_part a + neg_part b ≡ neg_part (a +ℤ b) + pos_part a + pos_part b
add-parts a b = ground arith

module _ {F : Type 0} where
  -- What the proxy does for a request to a backend that the balancer chose.
  unfoldable pub act : String → Time × Action → Balancer F → Balancer F
  act id (now, starts) b = dispatch now id (incr id b)
  act id (now, ends success timed_out) b = complete_and_decr now id success timed_out b

  unfoldable pub act_all : String → List (Time × Action) → Balancer F → Balancer F
  act_all id [] b = b
  act_all id (a ∷ acts) b = act_all id acts (act id a b)

  find_state-incr :
      (id : String) (b : Balancer F) {s : BackendState F}
      → find_state b id ≡ some s
      → find_state (incr id b) id ≡ some (record s { in_flight = s.in_flight +ℤ pos 1 })
  unfolding incr
  find_state-incr id b e =
      find_state-update_first id id (λ s. record s { in_flight = s.in_flight +ℤ pos 1 }) b
        (λ _. refl)
      ∙ rw (text_self id, e) refl

  find_state-dispatch :
      (now : Time) (id : String) (b : Balancer F) {s : BackendState F}
      → find_state b id ≡ some s
      → find_state (dispatch now id b) id ≡ some (record s { flow = Flow.dispatch now s.flow })
  unfolding dispatch
  find_state-dispatch now id b e =
      find_state-update_first id id (λ s. record s { flow = Flow.dispatch now s.flow }) b
        (λ _. refl)
      ∙ rw (text_self id, e) refl

  find_state-complete :
      (now : Time) (id : String) (success timed_out : Bool) (b : Balancer F) {s : BackendState F}
      → find_state b id ≡ some s
      → find_state (decr id (complete now id success timed_out b)) id
        ≡ some (record s {
          flow = Flow.complete now success timed_out s.flow;
          in_flight = s.in_flight +ℤ negsuc 0;
        })
  unfolding complete decr
  find_state-complete now id success timed_out b {s} e =
      let finish : BackendState F → BackendState F =
        λ s. record s { flow = Flow.complete now success timed_out s.flow } in
      let done : find_state (update_first id finish b) id ≡ some (finish s) =
        find_state-update_first id id finish b (λ _. refl) ∙ rw (text_self id, e) refl in
      find_state-update_first id id (λ s. record s { in_flight = s.in_flight +ℤ negsuc 0 })
        (update_first id finish b) (λ _. refl)
      ∙ rw (text_self id, done) refl

  pub record_request_outcome-kept :
      (now : Time) (success : Bool) (limit ramp : ℤ) (s : BackendState F)
      → ((record_request_outcome now success limit ramp s).id ≡ s.id)
        × ((record_request_outcome now success limit ramp s).in_flight ≡ s.in_flight)
        × ((record_request_outcome now success limit ramp s).flow ≡ s.flow)
  unfolding record_request_outcome enter_ramp demote
  record_request_outcome-kept now success limit ramp s = (ground arith, ground arith, ground arith)

  find_state-complete_and_decr :
      (now : Time) (id : String) (success timed_out : Bool) (b : Balancer F) {s : BackendState F}
      → find_state b id ≡ some s
      → (t : BackendState F) × (find_state (complete_and_decr now id success timed_out b) id
          ≡ some t)
        × (t.in_flight ≡ s.in_flight +ℤ negsuc 0)
        × (t.flow ≡ Flow.complete now success timed_out s.flow)
  unfolding complete_and_decr record_outcome
  find_state-complete_and_decr now id success true b e =
      (_, find_state-complete now id success true b e, refl, refl)
  find_state-complete_and_decr now id success false b {s} e =
      let rule : Group F → BackendState F → BackendState F =
        λ g s. record_request_outcome now success (pos 3) (pos 0) s in
      let (g, i, q) =
        find_state-update_each id id rule (decr id (complete now id success false b))
          (λ g s. (record_request_outcome-kept now success (pos 3) (pos 0) s).0)
          (find_state-complete now id success false b e) in
      let done : BackendState F = record s {
        flow = Flow.complete now success false s.flow;
        in_flight = s.in_flight +ℤ negsuc 0;
      } in
      let (_, n, f) = record_request_outcome-kept now success (pos 3) (pos 0) done in
      (rule g done, q ∙ rw (text_self id) refl, n, f)

  -- For a backend that the balancer knows, any history of Incr with Dispatch and of
  -- CompleteAndDecr raises its in-flight counter by the requests started and lowers it by those
  -- ended.
  pub in_flight-act_all :
      (id : String) (acts : List (Time × Action)) (b : Balancer F) (s : BackendState F)
      → find_state b id ≡ some s
      → (t : BackendState F) × (find_state (act_all id acts b) id ≡ some t)
        × (pos_part t.in_flight + neg_part s.in_flight + end_count acts
            ≡ pos_part s.in_flight + neg_part t.in_flight + start_count acts)
  unfolding act_all act start_count end_count
  in_flight-act_all id [] b s e = (s, e, omega arith)
  in_flight-act_all id ((now, starts) ∷ acts) b s e =
      let next = find_state-dispatch now id (incr id b) (find_state-incr id b e) in
      let (t, f, n) = in_flight-act_all id acts (dispatch now id (incr id b)) _ next in
      (t, f, omega (arith, n, add-parts s.in_flight (pos 1)))
  in_flight-act_all id ((now, ends success timed_out) ∷ acts) b s e =
      let (m, next, q, _) = find_state-complete_and_decr now id success timed_out b e in
      let (t, f, n) =
        in_flight-act_all id acts (complete_and_decr now id success timed_out b) m next in
      let p = add-parts s.in_flight (negsuc 0) in
      let q' : m.in_flight ≡ s.in_flight +ℤ negsuc 0 = q in (t, f, omega (arith, n, rw (← q') at p))
