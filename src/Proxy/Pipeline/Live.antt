-- ===== src/Proxy/Pipeline/Live.antt =====
-- The requests in progress and what they hold of the server, over any order of their steps.
use llm_proxy.Base.{
  ℕ, suc, ◌+◌, ◌-◌, Bool, true, false, ◌≡◌, refl, sym, ap, ◌∙◌, subst, inl, inr, List, [], ◌∷◌,
  ◌++◌, none, some, String, Map, lookup, insert, lookup-insert, length, if◌then◌else◌, ◌==◌,
  text_eq, text_iff, arith, Bool-cases, Option-cases,
}
use llm_proxy.Base.Int.{pos, negsuc, ◌+ℤ◌, sub_ℕ}
use llm_proxy.Base.Time.{Time}
use llm_proxy.Proxy.Pipeline.{Server, Semaphore, Forwarded, acquire_semaphore}
use llm_proxy.Proxy.Pipeline.Finish.{
  End, failed, responded, end_request, finish, finish_old, release, error_handler, end_response,
}

unfoldable pub bytes_held : List Forwarded → ℕ
bytes_held [] = 0
bytes_held (f ∷ fs) = length f.encoded + bytes_held fs

-- The requests to a backend.
unfoldable pub count : String → List Forwarded → ℕ
count id [] = 0
count id (f ∷ fs) = let rest = count id fs in if f.backend.id == id then suc rest else rest

pub bytes_held-append :
    (xs ys : List Forwarded) → bytes_held (xs ++ ys) ≡ bytes_held xs + bytes_held ys
unfolding bytes_held
bytes_held-append [] ys = omega arith
bytes_held-append (f ∷ xs) ys = omega (arith, bytes_held-append xs ys)

pub count-append :
    (id : String) (xs ys : List Forwarded) → count id (xs ++ ys) ≡ count id xs + count id ys
unfolding count
count-append id [] ys = omega arith
count-append id (f ∷ xs) ys = let rest = count-append id xs ys in ground arith

module _ {F : Type 0} where
  -- What the end of a request leaves of the counts.
  pub finish_old-lem :
      (now : Time) (f : Forwarded) (end : End) (s : Server F)
      → ((finish_old now f end s).buffered_bytes ≡ s.buffered_bytes +ℤ sub_ℕ 0 (length f.encoded))
        × ((finish_old now f end s).active_requests ≡ s.active_requests +ℤ negsuc 0)
        × ((finish_old now f end s).semaphores ≡ s.semaphores)
  unfolding finish_old end_request error_handler end_response
  finish_old-lem now f (failed timed_out) s = elim (Option-cases s.balancer) [
    | inl n ↦ rw (n, finish_old, end_request, error_handler) (refl, refl, refl)
    | inr (b, n) ↦ rw (n, finish_old, end_request, error_handler) (refl, refl, refl)
  ]
  finish_old-lem now f (responded status late gone) s = elim (Option-cases s.balancer) [
    | inl n ↦ rw (n, finish_old, end_request, end_response) (refl, refl, refl)
    | inr (b, n) ↦ rw (n, finish_old, end_request, end_response) (refl, refl, refl)
  ]

  pub finish-lem :
      (now : Time) (f : Forwarded) (end : End) (s : Server F)
      → ((finish now f end s).buffered_bytes ≡ s.buffered_bytes +ℤ sub_ℕ 0 (length f.encoded))
        × ((finish now f end s).active_requests ≡ s.active_requests +ℤ negsuc 0)
        × ((finish now f end s).semaphores ≡ release f.backend.id s.semaphores)
  unfolding finish finish_old
  finish-lem now f end s =
      let (b, a, m) = finish_old-lem now f end s in (b, a, ap (release f.backend.id) m)

pub sub_self : (m n : ℕ) → pos (m + n) +ℤ sub_ℕ 0 m ≡ pos n
sub_self m n = ground arith

-- A slot of a backend that a request takes or gives back: what the semaphore of `id` was before.
pub record Moved (id other : String) (sems : Map Semaphore) (after : Semaphore) (up : Bool)
    : Type 0 where
  pub before : Semaphore
  pub found : lookup id sems ≡ some before
  pub capacity : after.capacity ≡ before.capacity
  pub held :
      after.held
      ≡ (if other == id then (if up then before.held + 1 else before.held - 1) else before.held)

pub some_semaphore : {a b : Semaphore} → some a ≡ some b → a ≡ b
some_semaphore {a = a} e = ap (λ o. elim o [ none ↦ a | some s ↦ s ]) e

written_Moved :
    (id other : String) (sems : Map Semaphore) (up : Bool) {sem after : Semaphore}
    → lookup other sems ≡ some sem
    → lookup id
        (insert other (record sem { held = if up then sem.held + 1 else sem.held - 1 }) sems)
      ≡ some after
    → Moved id other sems after up
written_Moved id other sems up {sem = sem} {after = after} n e =
    let new : Semaphore = record sem { held = if up then sem.held + 1 else sem.held - 1 } in
    let read = sym (lookup-insert other id new sems) ∙ e in
    elim (Bool-cases (other == id)) [
      | inl q ↦
          let now = some_semaphore (rw q at read) in
          record {
            before = sem;
            found = subst (λ k. lookup k sems ≡ some sem) ((text_iff other id).0 q) n;
            capacity = ap (λ s. s.capacity) (sym now);
            held = rw q (ap (λ s. s.held) (sym now));
          }
      | inr q ↦ record { before = after; found = rw q at read; capacity = refl; held = rw q refl }
    ]

absent_Moved :
    (id other : String) (sems : Map Semaphore) (up : Bool) {after : Semaphore}
    → lookup other sems ≡ none
    → lookup id sems ≡ some after
    → Moved id other sems after up
absent_Moved id other sems up {after = after} n e = elim (Bool-cases (other == id)) [
  | inl q ↦
      let gone = subst (λ k. lookup k sems ≡ none) ((text_iff other id).0 q) n in
      absurd (ground arith)
  | inr q ↦ record { before = after; found = e; capacity = refl; held = rw q refl }
]

pub acquire_semaphore-Moved :
    (turn : Bool) (id other : String) (sems : Map Semaphore) {taken : Map Semaphore}
    {after : Semaphore}
    → acquire_semaphore turn other sems ≡ some taken
    → lookup id taken ≡ some after
    → Moved id other sems after true
unfolding acquire_semaphore
acquire_semaphore-Moved turn id other sems {taken = taken} {after = after} a e =
    elim (Option-cases (lookup other sems)) [
      | inl n ↦
          let same : sems ≡ taken = ground arith in
          absent_Moved id other sems true n (ap (lookup id) same ∙ e)
      | inr (sem, n) ↦ elim (Bool-cases turn) [
        | inl t ↦
            let same : insert other (record sem { held = sem.held + 1 }) sems ≡ taken =
              ground arith in
            written_Moved id other sems true n (ap (lookup id) same ∙ e)
        | inr t ↦ absurd (ground arith)
      ]
    ]

pub release-Moved :
    (id other : String) (sems : Map Semaphore) {after : Semaphore}
    → lookup id (release other sems) ≡ some after
    → Moved id other sems after false
unfolding release
release-Moved id other sems e = elim (Option-cases (lookup other sems)) [
  | inl n ↦ absent_Moved id other sems false n (rw (n, release) at e)
  | inr (sem, n) ↦ written_Moved id other sems false n (rw (n, release) at e)
]
