-- ===== src/Proxy/Pipeline/Taken.antt =====
-- What the parts of a step do to the accounts of the server (internal/proxy/server.go).
use llm_proxy.Base.{
  ℕ, Bool, suc, ◌+◌, ◌-◌, ◌≤◌, true, ◌≡◌, refl, sym, ap, ◌∙◌, subst, inl, inr, List, ◌∷◌, ◌++◌,
  some, String, Map, lookup, length, length-append, ◌==◌, text_eq, text_iff, ok, err, arith,
  Bool-cases, Option-cases,
}
use llm_proxy.Base.Int.{ℤ, pos, ◌+ℤ◌, sub_ℕ}
use llm_proxy.Base.Floats.{Floats}
use llm_proxy.Proxy.Pipeline.{Server, Semaphore, Stop, Forwarded, External, acquire_semaphore}
use llm_proxy.Proxy.Pipeline.Finish.{release}
use llm_proxy.Proxy.Pipeline.Start.{admit, give_up, wait_slot}
use llm_proxy.Proxy.Pipeline.Accounts.{Leaks}
use llm_proxy.Proxy.Pipeline.Live.{
  bytes_held, count, bytes_held-append, count-append, sub_self, acquire_semaphore-Moved,
  release-Moved,
}
use llm_proxy.Proxy.Pipeline.System.{HasRoom}

-- A semaphore's slots are those of these requests, and no more than it has.
abbrev pub AreTaken : Map Semaphore → List Forwarded → Type 0
AreTaken sems live =
    (id : String) (sem : Semaphore)
    → lookup id sems ≡ some sem
    → (sem.held ≡ count id live) × (sem.held ≤ sem.capacity)

-- Adding to a count, and taking from it.
pub raised : {n : ℤ} (m k t : ℕ) → n ≡ pos m → m + k ≡ t → n +ℤ pos k ≡ pos t
raised {n} m k t e q = ap (λ z. z +ℤ pos k) e ∙ ground arith

pub lowered : {n : ℤ} (m k t : ℕ) → n ≡ pos m → k + t ≡ m → n +ℤ sub_ℕ 0 k ≡ pos t
lowered {n} m k t e q = ap (λ z. z +ℤ sub_ℕ 0 k) (e ∙ ap pos (sym q)) ∙ sub_self k t

-- One of the requests, and the others.
pub without-lem :
    (xs before : List Forwarded) (f : Forwarded) (later : List Forwarded)
    → xs ≡ before ++ f ∷ later
    → (bytes_held xs ≡ length f.encoded + bytes_held (before ++ later))
      × (length xs ≡ 1 + length (before ++ later))
unfolding bytes_held
without-lem xs before f later e =
    let sum = bytes_held-append before (f ∷ later) in
    let rest = bytes_held-append before later in
    let len = length-append before (f ∷ later) in
    let left = length-append before later in
    let all : bytes_held xs ≡ bytes_held (before ++ f ∷ later) = ap bytes_held e in
    let one : length xs ≡ length (before ++ f ∷ later) = ap length e in
    (omega (arith, all, sum, rest), omega (arith, one, len, left))

pub acquire_semaphore-AreTaken :
    (sems taken : Map Semaphore) (live : List Forwarded) (f : Forwarded)
    → acquire_semaphore true f.backend.id sems ≡ some taken
    → HasRoom sems f.backend.id
    → AreTaken sems live
    → AreTaken taken (f ∷ live)
unfolding count
acquire_semaphore-AreTaken sems taken live f q room slots id sem e =
    let d = acquire_semaphore-Moved true id f.backend.id sems q e in
    let (old, limit) = slots id d.before d.found in
    elim (Bool-cases (f.backend.id == id)) [
      | inl b ↦
          let free = room d.before (
            subst (λ k. lookup k sems ≡ some d.before) (sym ((text_iff f.backend.id id).0 b))
              d.found) in
          let up : sem.held ≡ d.before.held + 1 = rw b at d.held in
          rw b (omega (arith, up, old), omega (arith, up, free, d.capacity))
      | inr b ↦
          let up : sem.held ≡ d.before.held = rw b at d.held in
          rw b (up ∙ old, omega (arith, up, limit, d.capacity))
    ]

pub release-AreTaken :
    (sems : Map Semaphore) (before : List Forwarded) (f : Forwarded) (later : List Forwarded)
    → AreTaken sems (before ++ f ∷ later)
    → AreTaken (release f.backend.id sems) (before ++ later)
unfolding count
release-AreTaken sems before f later slots id sem e =
    let d = release-Moved id f.backend.id sems e in
    let (old, limit) = slots id d.before d.found in
    let kept = count-append id before later in
    let all = count-append id before (f ∷ later) in
    elim (Bool-cases (f.backend.id == id)) [
      | inl b ↦
          let down : sem.held ≡ d.before.held - 1 = rw b at d.held in
          let one : count id (f ∷ later) ≡ suc (count id later) = rw b refl in
          (omega (arith, down, old, kept, all, one), omega (arith, down, limit, d.capacity))
      | inr b ↦
          let same : sem.held ≡ d.before.held = rw b at d.held in
          let none : count id (f ∷ later) ≡ count id later = rw b refl in
          (omega (arith, same, old, kept, all, none), omega (arith, same, limit, d.capacity))
    ]

module _ (Fl : Floats) (ext : External Fl) where
  open Fl use {F}

  second : {A B : Type 0} {p : A × B} {a : A} {b : B} → p ≡ (a, b) → p.1 ≡ b
  second e = ap (λ q. q.1) e

  pub admit-ok :
      (f : Forwarded) (s : Server F) {g : Forwarded} {t : Server F}
      → admit Fl ext f s ≡ (ok g, t)
      → (t.buffered_bytes ≡ s.buffered_bytes +ℤ pos (length f.encoded))
        × (t.active_requests ≡ s.active_requests +ℤ pos 1)
        × (t.semaphores ≡ s.semaphores)
  unfolding admit
  admit-ok f s e = elim (Bool-cases (ext.is_url f.backend.base_url)) [
    | inl u ↦
        let q = sym (second (rw u at e)) in
        (ap (λ t. t.buffered_bytes) q, ap (λ t. t.active_requests) q, ap (λ t. t.semaphores) q)
    | inr u ↦ let q = ap (λ p. p.0) (rw u at e) in absurd cc
  ]

  pub admit-err :
      (f : Forwarded) (s : Server F) {stop : Stop} {t : Server F}
      → admit Fl ext f s ≡ (err stop, t)
      → Leaks f s t
  unfolding admit
  admit-err f s e = elim (Bool-cases (ext.is_url f.backend.base_url)) [
    | inr u ↦
        let q = sym (second (rw u at e)) in
        (ap (λ t. t.buffered_bytes) q, ap (λ t. t.active_requests) q, ap (λ t. t.semaphores) q)
    | inl u ↦ let q = ap (λ p. p.0) (rw u at e) in absurd cc
  ]

  pub wait_slot-ok :
      (turn : Bool) (f : Forwarded) (s : Server F) {g : Forwarded} {t : Server F}
      → wait_slot Fl ext turn f s ≡ (ok g, t)
      → (t.buffered_bytes ≡ s.buffered_bytes)
        × (t.active_requests ≡ s.active_requests)
        × (acquire_semaphore turn f.backend.id s.semaphores ≡ some t.semaphores)
  unfolding wait_slot
  wait_slot-ok turn f s e = elim (Option-cases (acquire_semaphore turn f.backend.id s.semaphores)) [
    | inl n ↦ let q = ap (λ p. p.0) (rw (n, wait_slot) at e) in absurd cc
    | inr (sems, n) ↦
        let q = sym (second (rw (n, wait_slot) at e)) in
        (
          ap (λ t. t.buffered_bytes) q,
          ap (λ t. t.active_requests) q,
          n ∙ ap some (sym (ap (λ t. t.semaphores) q)),
        )
  ]

  pub wait_slot-err :
      (turn : Bool) (f : Forwarded) (s : Server F) {stop : Stop} {t : Server F}
      → wait_slot Fl ext turn f s ≡ (err stop, t)
      → t ≡ give_up Fl ext s
  unfolding wait_slot
  wait_slot-err turn f s e =
      elim (Option-cases (acquire_semaphore turn f.backend.id s.semaphores)) [
        | inl n ↦ sym (second (rw (n, wait_slot) at e))
        | inr (sems, n) ↦ let q = ap (λ p. p.0) (rw (n, wait_slot) at e) in absurd cc
      ]
