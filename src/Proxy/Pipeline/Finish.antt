-- ===== src/Proxy/Pipeline/Finish.antt =====
-- The closures that end a request (internal/proxy/server.go): the error handler, the callback of a
-- streamed body, and the buffered response. A response whose body cannot be read ends in the error
-- handler too, as httputil.ReverseProxy does with an error of its ModifyResponse.
use llm_proxy.Base.{
  ℕ, ◌-◌, Bool, false, not, ◌&&◌, ◌||◌, none, some, String, Map, lookup, insert, length,
  if◌then◌else◌, ◌==◌, text_eq, number_eq, leb,
}
use llm_proxy.Base.Int.{pos, negsuc, ◌+ℤ◌, sub_ℕ}
use llm_proxy.Base.Time.{Time}
use llm_proxy.Config.Lookup.{should_failover_on_code}
use llm_proxy.Balancer.Group.{Balancer, complete_and_decr}
use llm_proxy.Balancer.Group.Failover.{invalidate_pin}
use llm_proxy.Proxy.Pipeline.{Server, Semaphore, Forwarded}

-- How the backend's side of a request ends: an error, or a response with its status. A read of its
-- body may have timed out, and the client may have gone.
pub data End : Type 0 where
  failed : Bool → End
  responded : ℕ → Bool → Bool → End

unfoldable pub release : String → Map Semaphore → Map Semaphore
release id sems = elim (lookup id sems) [
  | none ↦ sems
  | some sem ↦ insert id (record sem { held = sem.held - 1 }) sems
]

module _ {F : Type 0} where
  abbrev map_balancer : (Balancer F → Balancer F) → Server F → Server F
  map_balancer f s = elim s.balancer [ none ↦ s | some b ↦ record s { balancer = some (f b) } ]

  -- The bytes and the count of a request that ends.
  abbrev pub give_back : Forwarded → Server F → Server F
  give_back f s = record s {
    buffered_bytes = s.buffered_bytes +ℤ sub_ℕ 0 (length f.encoded);
    active_requests = s.active_requests +ℤ negsuc 0;
  }

  -- Whether the status of a response takes its pin away.
  unfoldable pub fails_over : Server F → String → ℕ → Bool
  fails_over s group status =
      if group == "" then leb 500 status else elim (lookup group s.cfg.groups) [
        | none ↦ false
        | some g ↦ should_failover_on_code g (pos status)
      ]

  unfoldable pub error_handler : Time → Forwarded → Bool → Server F → Server F
  error_handler now f timed_out s =
      map_balancer
        (λ b.
          let done = complete_and_decr now f.backend.id false timed_out b in
          if timed_out then done else invalidate_pin now f.lb_group f.lb_aff_key done)
        (give_back f s)

  -- A response with its status: the callback of a streamed body, or the buffered response.
  unfoldable pub end_response : Time → Forwarded → ℕ → Bool → Server F → Server F
  unfolding fails_over
  end_response now f status timed_out s =
      map_balancer
        (λ b.
          let done = complete_and_decr now f.backend.id (status == 200) timed_out b in
          if not timed_out && fails_over s f.lb_group status
          then invalidate_pin now f.lb_group f.lb_aff_key done
          else done)
        (give_back f s)

  -- The end of a request but for its slot.
  unfoldable pub end_request : Time → Forwarded → End → Server F → Server F
  unfolding error_handler end_response
  end_request now f end s = elim end [
    | failed timed_out ↦ error_handler now f timed_out s
    | responded status read_timeout client_gone ↦
        let streamed = f.streaming && status == 200 in
        end_response now f status (streamed && (read_timeout || client_gone)) s
  ]

  -- The end of a request, and the deferred release of its slot.
  unfoldable pub finish : Time → Forwarded → End → Server F → Server F
  unfolding end_request release
  finish now f end s =
      let ended = end_request now f end s in
      record ended { semaphores = release f.backend.id ended.semaphores }

  -- The same for a request that took its slot before the last reload: it gives it back to a channel
  -- that the server does not have any more.
  unfoldable pub finish_old : Time → Forwarded → End → Server F → Server F
  unfolding end_request
  finish_old now f end s = end_request now f end s
