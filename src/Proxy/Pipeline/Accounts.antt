-- ===== src/Proxy/Pipeline/Accounts.antt =====
-- What requests hold of the server, and that they give it back.
use llm_proxy.Base.{
  ℕ, Bool, true, false, ◌≡◌, refl, sym, ap, ◌∙◌, ◌⊎◌, inl, inr, List, Option, none, some, String,
  Map, lookup, length, ◌==◌, text_eq, Result, ok, err, arith, Bool-cases, Option-cases,
  Result-cases,
}
use llm_proxy.Base.Int.{ℤ, pos, negsuc, ◌+ℤ◌}
use llm_proxy.Base.Time.{Time}
use llm_proxy.Base.Floats.{Floats}
use llm_proxy.Json.{Object}
use llm_proxy.Config.Lookup.{default_backend}
use llm_proxy.Router.{Resolution, resolve}
use llm_proxy.Balancer.Group.{Balancer, SelectError}
use llm_proxy.Balancer.State.{BackendState}
use llm_proxy.Proxy.Pipeline.{
  Server, Semaphore, Request, Stop, refused, answered, crashed, Target, Forwarded, External, Asked,
  acquire_semaphore, decode, defender_key,
}
use llm_proxy.Proxy.Pipeline.Routing.{selected, balance, route_request, choose_target}
use llm_proxy.Proxy.Pipeline.Start.{
  admit, give_up, wait_slot, continue, asked_of, prepare, proxy_request, and_then, body_or_nil,
}
use llm_proxy.Proxy.Defender.{check_defenders}

-- Two states of the server with the same counts and slots.
abbrev pub Holds : {F : Type 0} → Server F → Server F → Type 0
Holds s t =
    (t.buffered_bytes ≡ s.buffered_bytes)
    × (t.active_requests ≡ s.active_requests)
    × (t.semaphores ≡ s.semaphores)

-- The second state has the bytes of a request more.
abbrev pub Leaks : {F : Type 0} → Forwarded → Server F → Server F → Type 0
Leaks f s t =
    (t.buffered_bytes ≡ s.buffered_bytes +ℤ pos (length f.encoded))
    × (t.active_requests ≡ s.active_requests)
    × (t.semaphores ≡ s.semaphores)

abbrev pub is_crash : Stop → Bool
is_crash crashed = true
is_crash (refused _) = false
is_crash (answered _ _) = false

-- What becomes of a request before the reverse proxy, and of what it holds of the server.
pub data Outcome {F : Type 0} (is_url : String → Bool) (turn : Bool) (s : Server F)
    : Result Stop Forwarded × Server F → Type 0 where
  -- It is refused or answered, and holds nothing.
  stopped :
      {stop : Stop} {t : Server F}
      → is_crash stop ≡ false
      → Holds s t
      → Outcome is_url turn s (err stop, t)
  -- The handler panics, and holds nothing.
  panicked : {t : Server F} → Holds s t → Outcome is_url turn s (err crashed, t)
  -- It is refused for its backend's URL or for want of a slot, and its bytes stay counted.
  leaked :
      {stop : Stop} {t : Server F} (f : Forwarded)
      → is_crash stop ≡ false
      → Leaks f s t
      → ((is_url f.backend.base_url ≡ false) ⊎ (turn ≡ false))
      → Outcome is_url turn s (err stop, t)
  -- It goes on, and holds its bytes, a slot and its place among the active requests.
  started :
      {t : Server F} (f : Forwarded)
      → t.buffered_bytes ≡ s.buffered_bytes +ℤ pos (length f.encoded)
      → t.active_requests ≡ s.active_requests +ℤ pos 1
      → acquire_semaphore turn f.backend.id s.semaphores ≡ some t.semaphores
      → Outcome is_url turn s (ok f, t)

acquire_semaphore-none :
    (turn : Bool) (id : String) (sems : Map Semaphore)
    → acquire_semaphore turn id sems ≡ none
    → turn ≡ false
unfolding acquire_semaphore
acquire_semaphore-none turn id sems e = elim (Option-cases (lookup id sems)) [
  | inl n ↦ absurd (ground arith)
  | inr (sem, n) ↦ elim (Bool-cases turn) [ inl t ↦ absurd (ground arith) | inr t ↦ t ]
]

module _ (Fl : Floats) (ext : External Fl) where
  open Fl use {F}

  selected-Holds :
      (now : Time) (res : Resolution F) (key : String) (body : Object F) (s : Server F)
      (chosen : Result SelectError (BackendState F)) (after : Balancer F)
      → Holds s (selected Fl ext now res key body s chosen after).1
  unfolding selected
  selected-Holds now res key body s (err e) after = (refl, refl, refl)
  selected-Holds now res key body s (ok st) after = (refl, refl, refl)

  route_request-Holds :
      (now : Time) (asked : Asked) (r : Request) (res : Resolution F) (body : Object F)
      (s : Server F)
      → Holds s (route_request Fl ext now asked r res body s).1
  unfolding route_request balance
  route_request-Holds now asked r res body s = elim (Bool-cases (res.group == "")) [
    | inl h ↦ rw (h, route_request) (refl, refl, refl)
    | inr h ↦ elim (Option-cases s.balancer) [
      | inl n ↦ rw (h, n, route_request) (refl, refl, refl)
      | inr (b, n) ↦ elim (Option-cases (lookup res.group s.cfg.groups)) [
        | inl m ↦ rw (h, n, m, route_request) (refl, refl, refl)
        | inr (g, m) ↦ rw (h, n, m, route_request) (selected-Holds now res _ body s _ _)
      ]
    ]
  ]

  choose_target-Holds :
      (now : Time) (now_unix : ℕ) (asked : Asked) (r : Request) (body : Object F) (s : Server F)
      → Holds s (choose_target Fl ext now now_unix asked r body s).1
  unfolding choose_target default_backend
  choose_target-Holds now now_unix asked r body s =
      elim (Result-cases (resolve s.cfg asked.model body)) [
        | inl (e, h) ↦ elim (Bool-cases s.cfg.server.passthrough_unrouted) [
          | inl p ↦ elim (Option-cases (default_backend s.cfg)) [
            | inl n ↦ rw (h, p, n, choose_target) (refl, refl, refl)
            | inr (b, n) ↦ rw (h, p, n, choose_target) (refl, refl, refl)
          ]
          | inr p ↦ rw (h, p, choose_target) (refl, refl, refl)
        ]
        | inr (res, h) ↦
            let key = defender_key Fl ext s.cfg r body res.group asked.model in
            let d =
              check_defenders ext.sha_hex ext.sprint_length ext.show s.detector now now_unix s.cfg
                res.route body key in
            let seen : Server F = record s { detector = d.detector } in
            let routed : Holds s (route_request Fl ext now asked r res d.body seen).1 =
              route_request-Holds now asked r res d.body seen in
            elim (Bool-cases d.answer.short_circuit) [
              | inl c ↦ rw (h, choose_target, c) (refl, refl, refl)
              | inr c ↦ rw (h, choose_target, c) routed
            ]
      ]

  continue-Holds :
      (decoded : Option (Object F)) (asked : Asked) (flat : List String) (s : Server F)
      (target : Result Stop (Target F)) (t : Server F)
      → Holds s t
      → Holds s (continue Fl ext decoded asked flat (target, t)).1
  unfolding continue
  continue-Holds decoded asked flat s (err stop) t h = h
  continue-Holds none asked flat s (ok target) t h = h
  continue-Holds (some body) asked flat s (ok target) t h = h

  pub prepare-Holds :
      (now : Time) (now_unix : ℕ) (r : Request) (s : Server F)
      → Holds s (prepare Fl ext now now_unix r s).1
  unfolding prepare
  prepare-Holds now now_unix r s = elim (Result-cases (decode Fl ext r)) [
    | inl (stop, e) ↦ rw (e, prepare) (refl, refl, refl)
    | inr (decoded, e) ↦
        let asked = asked_of Fl ext r (body_or_nil Fl ext decoded) in
        rw (e, prepare)
          (continue-Holds decoded asked _ s _ _ (choose_target-Holds now now_unix asked r _ s))
  ]

  one_less : (n : ℤ) → n +ℤ pos 1 +ℤ negsuc 0 ≡ n
  one_less n = ground arith

  wait_slot-Outcome :
      (turn : Bool) (f : Forwarded) (s t u : Server F)
      → Holds s t
      → u ≡ record t {
        buffered_bytes = t.buffered_bytes +ℤ pos (length f.encoded);
        active_requests = t.active_requests +ℤ pos 1;
      }
      → Outcome ext.is_url turn s (wait_slot Fl ext turn f u)
  unfolding wait_slot give_up
  wait_slot-Outcome turn f s t u (h, a, m) e =
      let bytes = ap (λ v. v.buffered_bytes) e ∙ ap (λ n. n +ℤ pos (length f.encoded)) h in
      let more = ap (λ v. v.active_requests) e ∙ ap (λ n. n +ℤ pos 1) a in
      let slots : u.semaphores ≡ s.semaphores = ap (λ v. v.semaphores) e ∙ m in
      elim (Option-cases (acquire_semaphore turn f.backend.id u.semaphores)) [
        | inl n ↦
            rw (n, wait_slot, give_up)
              (leaked f refl
                (bytes, ap (λ n. n +ℤ negsuc 0) more ∙ one_less s.active_requests, slots)
                (inr (acquire_semaphore-none turn _ _ n)))
        | inr (sems, n) ↦
            rw (n, wait_slot)
              (started f bytes more (ap (acquire_semaphore turn f.backend.id) (sym slots) ∙ n))
      ]

  admit-Outcome :
      (turn : Bool) (f : Forwarded) (s t : Server F)
      → Holds s t
      → Outcome ext.is_url turn s (and_then Fl ext (wait_slot Fl ext turn) (admit Fl ext f t))
  unfolding admit
  admit-Outcome turn f s t h = elim (Bool-cases (ext.is_url f.backend.base_url)) [
    | inl u ↦ rw (u, admit) (wait_slot-Outcome turn f s t _ h refl)
    | inr u ↦
        rw (u, admit) (leaked f refl (ap (λ n. n +ℤ pos (length f.encoded)) h.0, h.1, h.2) (inl u))
  ]

  prepared-Outcome :
      (turn : Bool) (s : Server F) (r : Result Stop Forwarded) (t : Server F)
      → Holds s t
      → Outcome ext.is_url turn s
          (and_then Fl ext (wait_slot Fl ext turn) (and_then Fl ext (admit Fl ext) (r, t)))
  prepared-Outcome turn s (err crashed) t h = panicked h
  prepared-Outcome turn s (err (refused n)) t h = stopped refl h
  prepared-Outcome turn s (err (answered n l)) t h = stopped refl h
  prepared-Outcome turn s (ok f) t h = admit-Outcome turn f s t h

  -- Every request, whatever the server's state, ends its way to the reverse proxy in one of four
  -- ways: it is refused or answered, or its handler panics, and in both cases it leaves the
  -- buffered bytes, the active requests and the semaphores as they were; it is refused for its
  -- backend's URL or for want of a slot, and then its bytes stay among the buffered bytes; or it
  -- goes on, with its bytes, one active request and its slot counted.
  pub proxy_request-Outcome :
      (now : Time) (now_unix : ℕ) (turn : Bool) (r : Request) (s : Server F)
      → Outcome ext.is_url turn s (proxy_request Fl ext now now_unix turn r s)
  unfolding proxy_request
  proxy_request-Outcome now now_unix turn r s =
      let out = prepare Fl ext now now_unix r s in
      prepared-Outcome turn s out.0 out.1 (prepare-Holds now now_unix r s)
