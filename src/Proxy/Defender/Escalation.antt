-- ===== src/Proxy/Defender/Escalation.antt =====
-- When the loop detector detects, and when it escalates.
use llm_proxy.Base.{
  ℕ, suc, ◌≡◌, refl, sym, ◌∙◌, true, false, List, [], ◌∷◌, some, String, lookup, insert,
  lookup-insert, All, ◌==◌, text_eq, arith, Bool-cases, Option-cases, inl, inr,
}
use llm_proxy.Base.Int.{pos, int_leb}
use llm_proxy.Base.Time.{Time}
use llm_proxy.Config.Types.{LoopDetectionConfig}
use llm_proxy.Proxy.Defender.Loop.{
  LoopEntry, Detector, Verdict, is_stale, maybe_cleanup, repeat_entry, check_key, check_loop,
  composite_key, lookup-maybe_cleanup,
}

-- An entry that has not escalated and whose count is not above the threshold.
record Calm (t : ℕ) (e : LoopEntry) : Type 0 where
  low : int_leb e.count (pos t) ≡ true
  quiet : e.escaped ≡ false

repeat_entry-Calm :
    (cfg : LoopDetectionConfig) (t d : ℕ) (e : LoopEntry)
    → cfg.consecutive_threshold ≡ pos t
    → cfg.escalate_after ≡ pos (suc (suc d))
    → Calm t e
    → ((repeat_entry cfg e).0.escalated ≡ false) × Calm t (repeat_entry cfg e).1
unfolding repeat_entry
repeat_entry-Calm cfg t d e a b c =
    let low = c.low in
    let quiet = c.quiet in
    (
      rw (a, b) (ground arith),
      record { low = rw (a, b) (ground arith); quiet = rw (a, b) (ground arith) },
    )

IsCalm : ℕ → Detector → Type 0
IsCalm t m = (k : String) (e : LoopEntry) → lookup k m ≡ some e → Calm t e

IsCalm-insert :
    (t : ℕ) (k : String) (e : LoopEntry) (m : Detector)
    → Calm t e
    → IsCalm t m
    → IsCalm t (insert k e m)
unfolding IsCalm
IsCalm-insert t k e m c h j x q = elim (Bool-cases (k == j)) [
  | inl s ↦
      let same : some e ≡ some x = sym (lookup-insert k j e m ∙ rw s refl) ∙ q in
      let i : e ≡ x = ground arith in rw (← i) c
  | inr s ↦ h j x (sym (lookup-insert k j e m ∙ rw s refl) ∙ q)
]

check_key-Calm :
    (cfg : LoopDetectionConfig) (t d : ℕ) (key : String) (now : Time) (hash : String)
    (ld : Detector)
    → cfg.consecutive_threshold ≡ pos (suc t)
    → cfg.escalate_after ≡ pos (suc (suc d))
    → IsCalm (suc t) ld
    → ((check_key key now hash cfg ld).0.escalated ≡ false)
      × IsCalm (suc t) (check_key key now hash cfg ld).1
unfolding check_key IsCalm
check_key-Calm cfg t d key now hash ld a b h =
    let m = maybe_cleanup cfg.window_seconds now ld in
    let kept : IsCalm (suc t) m = cleaned m refl in
    let new : LoopEntry = record {
      hash = hash;
      count = pos 1;
      first_seen = now;
      escaped = false;
    } in
    let fresh =
      IsCalm-insert (suc t) key new m (record { low = ground arith; quiet = refl }) kept in
    elim (Option-cases (lookup key m)) [
      | inl n ↦ rw (n, check_key) (refl, fresh)
      | inr (e, n) ↦
          let (quiet, calm) = repeat_entry-Calm cfg (suc t) d e a b (kept key e n) in
          elim (Bool-cases (is_stale cfg.window_seconds now e)) [
            | inl s ↦ rw (n, s, check_key) (refl, fresh)
            | inr s ↦ rw (n, s, check_key) (quiet, IsCalm-insert (suc t) key _ m calm kept)
          ]
    ]
  where
    cleaned : (m : Detector) → maybe_cleanup cfg.window_seconds now ld ≡ m → IsCalm (suc t) m
    cleaned m q k e f = h k e (lookup-maybe_cleanup cfg.window_seconds now k ld (rw q f))

module _ (sha_hex : List ℕ → String) where
  -- The verdicts on a history of requests, each with its time, affinity key and message hash.
  unfoldable pub verdicts :
      LoopDetectionConfig → List (Time × String × String) → Detector → List Verdict
  unfolding check_loop
  verdicts cfg [] ld = []
  verdicts cfg ((now, affinity_key, hash) ∷ rs) ld =
      let (v, after) = check_loop sha_hex now affinity_key hash cfg ld in v ∷ verdicts cfg rs after

  check_loop-Calm :
      (cfg : LoopDetectionConfig) (t d : ℕ) (now : Time) (a hash : String) (ld : Detector)
      → cfg.consecutive_threshold ≡ pos (suc t)
      → cfg.escalate_after ≡ pos (suc (suc d))
      → IsCalm (suc t) ld
      → ((check_loop sha_hex now a hash cfg ld).0.escalated ≡ false)
        × IsCalm (suc t) (check_loop sha_hex now a hash cfg ld).1
  unfolding check_loop check_key repeat_entry
  check_loop-Calm cfg t d now a hash ld th es h = elim (Bool-cases cfg.enabled) [
    | inl e ↦
        rw (e, check_loop)
          (check_key-Calm cfg t d (composite_key sha_hex a hash) now hash ld th es h)
    | inr e ↦ rw (e, check_loop) (refl, h)
  ]

  verdicts-calm :
      (cfg : LoopDetectionConfig) (t d : ℕ) (rs : List (Time × String × String)) (ld : Detector)
      → cfg.consecutive_threshold ≡ pos (suc t)
      → cfg.escalate_after ≡ pos (suc (suc d))
      → IsCalm (suc t) ld
      → All (λ v. v.escalated ≡ false) (verdicts cfg rs ld)
  unfolding verdicts
  verdicts-calm cfg t d [] ld a b h = tt
  verdicts-calm cfg t d ((now, key, hash) ∷ rs) ld a b h =
      let (q, next) = check_loop-Calm cfg t d now key hash ld a b h in
      (q, verdicts-calm cfg t d rs (check_loop sha_hex now key hash cfg ld).1 a b next)

  -- With a positive threshold and an escalation after two or more further repeats, as by default,
  -- no request of any history is ever escalated, because each detection puts the count back to the
  -- threshold.
  pub verdicts-never_escalated :
      (cfg : LoopDetectionConfig) (t d : ℕ)
      → cfg.consecutive_threshold ≡ pos (suc t)
      → cfg.escalate_after ≡ pos (suc (suc d))
      → (rs : List (Time × String × String)) → All (λ v. v.escalated ≡ false) (verdicts cfg rs [])
  unfolding lookup IsCalm
  verdicts-never_escalated cfg t d a b rs =
      verdicts-calm cfg t d rs [] a b (λ k e q. absurd (ground arith))
