-- ===== src/Balancer/Group/Loops.antt =====
-- The loops of `Incr`, `Decr`, `Dispatch`, `Complete` and `recordRequestOutcome` over the map of
-- groups, which Go visits in another order each time, and which may hold one backend in several
-- groups (internal/balancer/balancer.go).
use llm_proxy.Base.{
  ℕ, suc, ◌+◌, ◌≡◌, refl, sym, ap, ◌∙◌, arith, text_self, subst, text_eq, Bool, true, false, ◌||◌,
  List, [], ◌∷◌, Option, none, some, String, inl, inr, Option-cases, any,
}
use llm_proxy.Base.Int.{ℤ, pos, negsuc, ◌+ℤ◌, pos_part, neg_part}
use llm_proxy.Base.Time.{Time}
use llm_proxy.Balancer.State.{BackendState, record_request_outcome}
use llm_proxy.Balancer.Selectors.{find_by_id}
use llm_proxy.Balancer.Group.{
  Group, Balancer, update_state, update_first, update_each, incr, decr, dispatch, complete,
  record_outcome,
}
use llm_proxy.Balancer.Group.Lookup.{Keeps, find_by_id-update_state}
use llm_proxy.Balancer.Group.Account.{add-parts, record_request_outcome-kept}

-- One loop for a backend.
pub data Loop : Type 0 where
  incrs decrs : Loop
  dispatches : Time → Loop
  completes : Time → Bool → Bool → Loop
  outcomes : Time → Bool → Loop

unfoldable pub incr_count : List Loop → ℕ
incr_count [] = 0
incr_count (l ∷ ls) = let n = incr_count ls in elim l [ incrs ↦ suc n | _ ↦ n ]

unfoldable pub decr_count : List Loop → ℕ
decr_count [] = 0
decr_count (l ∷ ls) = let n = decr_count ls in elim l [ decrs ↦ suc n | _ ↦ n ]

abbrev in_flight_of : {F : Type 0} → Option (BackendState F) → ℤ
in_flight_of none = pos 0
in_flight_of (some s) = s.in_flight

abbrev has_some : {F : Type 0} → Option (BackendState F) → Bool
has_some none = false
has_some (some _) = true

add_left : (a d r : ℤ) → (a +ℤ d) +ℤ r ≡ (a +ℤ r) +ℤ d
add_left a d r = ground arith

add_right : (a r d : ℤ) → a +ℤ (r +ℤ d) ≡ (a +ℤ r) +ℤ d
add_right a r d = ground arith

add_swap : (a b r : ℤ) → a +ℤ (b +ℤ r) ≡ b +ℤ (a +ℤ r)
add_swap a b r = ground arith

-- What a loop adds to the sum.
abbrev delta : Loop → ℤ
delta incrs = pos 1
delta decrs = negsuc 0
delta _ = pos 0

add_none : (n : ℤ) → n ≡ n +ℤ pos 0
add_none n = ground arith

-- One number's distance from another, by ups and downs.
abbrev IsMoved : ℤ → ℤ → ℕ → ℕ → Type 0
IsMoved from to ups downs = pos_part to + neg_part from + downs ≡ pos_part from + neg_part to + ups

delta-IsMoved :
    (l : Loop) (ls : List Loop) (n m : ℤ)
    → IsMoved (n +ℤ delta l) m (incr_count ls) (decr_count ls)
    → IsMoved n m (incr_count (l ∷ ls)) (decr_count (l ∷ ls))
unfolding incr_count decr_count
delta-IsMoved incrs ls n m h = let p = add-parts n (pos 1) in omega (arith, h, p)
delta-IsMoved decrs ls n m h = let p = add-parts n (negsuc 0) in omega (arith, h, p)
delta-IsMoved (dispatches now) ls n m h = let p = add-parts n (pos 0) in omega (arith, h, p)
delta-IsMoved (completes now s t) ls n m h = let p = add-parts n (pos 0) in omega (arith, h, p)
delta-IsMoved (outcomes now s) ls n m h = let p = add-parts n (pos 0) in omega (arith, h, p)

module _ {F : Type 0} where
  unfoldable pub run_loop : String → Loop → Balancer F → Balancer F
  run_loop id incrs b = incr id b
  run_loop id decrs b = decr id b
  run_loop id (dispatches now) b = dispatch now id b
  run_loop id (completes now success timed_out) b = complete now id success timed_out b
  run_loop id (outcomes now success) b = record_outcome now id success b

  -- The same groups in another order.
  pub data Reordered : Balancer F → Balancer F → Type 0 where
    swaps : {g h : Group F} {gs : Balancer F} → Reordered (g ∷ h ∷ gs) (h ∷ g ∷ gs)
    below : {g : Group F} {gs hs : Balancer F} → Reordered gs hs → Reordered (g ∷ gs) (g ∷ hs)

  -- The loops of a history, each over the groups in an order of its own.
  pub data Runs (id : String) : List Loop → Balancer F → Balancer F → Type 0 where
    over : {b : Balancer F} → Runs id [] b b
    reorders :
        {ls : List Loop} {b c d : Balancer F} → Reordered b c → Runs id ls c d → Runs id ls b d
    runs :
        {l : Loop} {ls : List Loop} {b c : Balancer F}
        → Runs id ls (run_loop id l b) c
        → Runs id (l ∷ ls) b c

  -- The sum of the in-flight counters that a backend has in the groups that hold it.
  unfoldable pub in_flight_sum : String → Balancer F → ℤ
  in_flight_sum id [] = pos 0
  in_flight_sum id (g ∷ gs) = in_flight_of (find_by_id g.states id) +ℤ in_flight_sum id gs

  -- Whether a group holds the backend.
  abbrev pub knows : String → Balancer F → Bool
  knows id b = any (λ (g : Group F). has_some (find_by_id g.states id)) b

  Reordered-kept :
      (id : String) {b c : Balancer F}
      → Reordered b c
      → (in_flight_sum id b ≡ in_flight_sum id c) × (knows id b ≡ knows id c)
  unfolding in_flight_sum
  Reordered-kept id (swaps {g = g} {h = h} {gs = gs}) = (
    add_swap (in_flight_of (find_by_id g.states id)) (in_flight_of (find_by_id h.states id))
        (in_flight_sum id gs),
    ground arith,
  )
  Reordered-kept id (below {g = g} r) =
      let (s, k) = Reordered-kept id r in
      (
        ap (λ n. in_flight_of (find_by_id g.states id) +ℤ n) s,
        ap (λ n. has_some (find_by_id g.states id) || n) k,
      )

  found-update_state :
      (id : String) (f : BackendState F → BackendState F) (g : Group F) {s : BackendState F}
      → Keeps f
      → find_by_id g.states id ≡ some s
      → find_by_id (update_state id f g.states) id ≡ some (f s)
  found-update_state id f g k e =
      find_by_id-update_state id id f g.states k ∙ rw (text_self id, e) refl

  in_flight_sum-update_first :
      (id : String) (f : BackendState F → BackendState F) (d : ℤ) (b : Balancer F)
      → Keeps f
      → ((s : BackendState F) → (f s).in_flight ≡ s.in_flight +ℤ d)
      → knows id b ≡ true
      → (in_flight_sum id (update_first id f b) ≡ in_flight_sum id b +ℤ d)
        × (knows id (update_first id f b) ≡ true)
  unfolding in_flight_sum update_first
  in_flight_sum-update_first id f d [] k more h = cc
  in_flight_sum-update_first id f d (g ∷ gs) k more h =
      elim (Option-cases (find_by_id g.states id)) [
        | inr (s, e) ↦
            let q = found-update_state id f g k e in
            rw (e, update_first, in_flight_sum, q)
              (
                ap (λ n. n +ℤ in_flight_sum id gs) (more s)
                    ∙ add_left s.in_flight d (in_flight_sum id gs),
                refl,
              )
        | inl e ↦
            let (s, n) = in_flight_sum-update_first id f d gs k more (rw e at h) in
            rw (e, update_first)
              (rw e (ap (λ n. pos 0 +ℤ n) s ∙ add_right (pos 0) (in_flight_sum id gs) d, n))
      ]

  in_flight_sum-update_each :
      (id : String) (f : Group F → BackendState F → BackendState F) (b : Balancer F)
      → ((g : Group F) → Keeps (f g))
      → ((g : Group F) (s : BackendState F) → (f g s).in_flight ≡ s.in_flight)
      → (in_flight_sum id (update_each id f b) ≡ in_flight_sum id b)
        × (knows id (update_each id f b) ≡ knows id b)
  unfolding in_flight_sum update_each
  in_flight_sum-update_each id f [] k same = (refl, refl)
  in_flight_sum-update_each id f (g ∷ gs) k same =
      let (s, n) = in_flight_sum-update_each id f gs k same in
      let q = find_by_id-update_state id id (f g) g.states (k g) in
      elim (Option-cases (find_by_id g.states id)) [
        | inl e ↦
            let q' : find_by_id (update_state id (f g) g.states) id ≡ none =
              q ∙ rw (text_self id, e) refl in
            rw (q', e) (ap (λ n. pos 0 +ℤ n) s, n)
        | inr (x, e) ↦
            let q' : find_by_id (update_state id (f g) g.states) id ≡ some (f g x) =
              q ∙ rw (text_self id, e) refl in
            rw (q', e)
              (
                ap (λ n. n +ℤ in_flight_sum id (update_each id f gs)) (same g x)
                    ∙ ap (λ n. x.in_flight +ℤ n) s,
                refl,
              )
      ]

  run_loop-delta :
      (id : String) (l : Loop) (b : Balancer F)
      → knows id b ≡ true
      → (in_flight_sum id (run_loop id l b) ≡ in_flight_sum id b +ℤ delta l)
        × (knows id (run_loop id l b) ≡ true)
  unfolding run_loop incr decr dispatch complete record_outcome
  run_loop-delta id incrs b h = in_flight_sum-update_first id _ (pos 1) b (λ s. refl) (λ s. refl) h
  run_loop-delta id decrs b h =
      in_flight_sum-update_first id _ (negsuc 0) b (λ s. refl) (λ s. refl) h
  run_loop-delta id (dispatches now) b h =
      in_flight_sum-update_first id _ (pos 0) b (λ s. refl) (λ s. add_none s.in_flight) h
  run_loop-delta id (completes now success timed_out) b h =
      in_flight_sum-update_first id _ (pos 0) b (λ s. refl) (λ s. add_none s.in_flight) h
  run_loop-delta id (outcomes now success) b h =
      let rule : Group F → BackendState F → BackendState F =
        λ g s. record_request_outcome now success (pos 3) (pos 0) s in
      let (s, n) =
        in_flight_sum-update_each id rule b
          (λ g s. (record_request_outcome-kept now success (pos 3) (pos 0) s).0)
          (λ g s. (record_request_outcome-kept now success (pos 3) (pos 0) s).1) in
      (s ∙ add_none (in_flight_sum id b), n ∙ h)

  -- For a backend that one or several groups hold, any history of the loops of Incr, Decr,
  -- Dispatch, Complete and recordRequestOutcome, each over the groups in whatever order, raises
  -- the sum of its in-flight counters by the Incrs and lowers it by the Decrs.
  pub in_flight_sum-Runs :
      (id : String) (loops : List Loop) (b c : Balancer F)
      → knows id b ≡ true
      → Runs id loops b c
      → pos_part (in_flight_sum id c) + neg_part (in_flight_sum id b) + decr_count loops
        ≡ pos_part (in_flight_sum id b) + neg_part (in_flight_sum id c) + incr_count loops
  unfolding incr_count decr_count
  in_flight_sum-Runs id [] b c h over = omega arith
  in_flight_sum-Runs id loops b d h (reorders {c = c} r more) =
      let (s, k) = Reordered-kept id r in
      let rest = in_flight_sum-Runs id loops c d (sym k ∙ h) more in
      subst (λ n. IsMoved n (in_flight_sum id d) (incr_count loops) (decr_count loops)) (sym s) rest
  in_flight_sum-Runs id (l ∷ ls) b c h (runs more) =
      let (s, k) = run_loop-delta id l b h in
      let rest = in_flight_sum-Runs id ls (run_loop id l b) c k more in
      delta-IsMoved l ls (in_flight_sum id b) (in_flight_sum id c)
        (subst (λ n. IsMoved n (in_flight_sum id c) (incr_count ls) (decr_count ls)) s rest)
