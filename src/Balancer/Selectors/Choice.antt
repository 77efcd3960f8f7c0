-- ===== src/Balancer/Selectors/Choice.antt =====
-- Which backend a new request gets when its key has no usable pin.
use llm_proxy.Base.{
  ℕ, ◌<◌, ◌≡◌, Bool, true, false, List, [], ◌∷◌, some, length, keep, ltb, arith, Bool-cases, ◌⊎◌,
  ltb→lt, inl, inr, In, here, there,
}
use llm_proxy.Base.Time.{Time, Duration}
use llm_proxy.Base.Floats.{Floats}
use llm_proxy.Balancer.State.{BackendState, is_failing}
use llm_proxy.Balancer.Select.{pick_least_loaded, load_score}
use llm_proxy.Balancer.Select.Least.{pick_least-least}
use llm_proxy.Balancer.Selectors.{is_ready, is_warming, choose}

module _ {ℓ} {A : Type ℓ} (p : A → Bool) where
  pub In-keep : (xs : List A) {a : A} → In a (keep p xs) → In a xs × (p a ≡ true)
  In-keep [] i = elim i [ ]
  In-keep (x ∷ xs) {a} i = elim (Bool-cases (p x)) [
    | inl e ↦ go e (λ k. In-keep xs k) (rw e at i)
    | inr e ↦ let (k, h) = In-keep xs (rw e at i) in (there k, h)
  ]
    where
      go :
          p x ≡ true
          → (In a (keep p xs) → In a xs × (p a ≡ true))
          → In a (x ∷ keep p xs)
          → In a (x ∷ xs) × (p a ≡ true)
      go e rest (here q) = (here q, rw (← q) e)
      go e rest (there k) = let (k', h) = rest k in (there k', h)

  pub keep-In : (xs : List A) {a : A} → In a xs → p a ≡ true → In a (keep p xs)
  keep-In (x ∷ xs) {a} (here q) h = let e : p x ≡ true = rw q h in rw e (here q)
  keep-In (x ∷ xs) (there i) h = elim (Bool-cases (p x)) [
    | inl e ↦ rw e (there (keep-In xs i h))
    | inr e ↦ rw e (keep-In xs i h)
  ]
  keep-In [] i h = elim i [ ]

pub length-In {ℓ} : {A : Type ℓ} (xs : List A) {a : A} → In a xs → 0 < length xs
length-In [] i = elim i [ ]
length-In (x ∷ xs) i = omega arith

module _ (fl : Floats) (now : Time) (stale : Duration) (hash : ℕ) where
  open fl use {F, lt}

  pub pick_nonempty :
      (l : List (BackendState F))
      → 0 < length l
      → (c : BackendState F) × (pick_least_loaded fl now stale hash l ≡ some c)
        × In c l
        × ((x : BackendState F)
            → In x l
            → lt (load_score fl now stale x) (load_score fl now stale c) ≡ false)
  unfolding pick_least_loaded
  pick_nonempty [] h = absurd (omega arith)
  pick_nonempty (b ∷ bs) h = pick_least-least fl (load_score fl now stale) hash b bs

  -- What the choice promises of `c`: it is in the pool; if any backend of the pool is ready, `c` is
  -- ready and no ready one has a lower score; if any is out of its cooldown, so is `c`.
  pub record IsBestFor (pool : List (BackendState F)) (c : BackendState F) : Type 0 where
    pub in_pool : In c pool
    pub prefers_ready :
        (x : BackendState F)
        → In x pool
        → is_ready fl now x ≡ true
        → (is_ready fl now c ≡ true)
          × (lt (load_score fl now stale x) (load_score fl now stale c) ≡ false)
    pub avoids_failing :
        (x : BackendState F) → In x pool → is_failing now x ≡ false → is_failing now c ≡ false

  ready_not_failing : (b : BackendState F) → is_ready fl now b ≡ true → is_failing now b ≡ false
  unfolding is_ready
  ready_not_failing b h = ground arith

  warming_not_failing : (b : BackendState F) → is_warming fl now b ≡ true → is_failing now b ≡ false
  unfolding is_warming
  warming_not_failing b h = ground arith

  live_cases :
      (b : BackendState F)
      → is_failing now b ≡ false
      → (is_ready fl now b ≡ true) ⊎ (is_warming fl now b ≡ true)
  unfolding is_ready is_warming
  live_cases b h = ground arith

  -- The choice from a pool that is not empty always yields a backend of the pool; if any of the
  -- pool is ready, the chosen one is ready and no ready one has a lower load score; if any is out
  -- of its cooldown, so is the chosen one.
  pub choose-IsBestFor :
      (pool : List (BackendState F))
      → 0 < length pool
      → (c : BackendState F) × (choose fl now stale hash pool ≡ some c) × IsBestFor pool c
  unfolding choose
  choose-IsBestFor pool h = elim (Bool-cases (ltb 0 (length ready))) [
    | inl r ↦
        let (c, e, i, least) = pick_nonempty ready (ltb→lt _ _ r) in
        let (k, is) = In-keep (is_ready fl now) pool i in
        (
          c,
          rw r e,
          record {
            in_pool = k;
            prefers_ready = λ x j q. (is, least x (keep-In (is_ready fl now) pool j q));
            avoids_failing = λ x j q. ready_not_failing c is;
          },
        )
    | inr r ↦ elim (Bool-cases (ltb 0 (length ramping))) [
      | inl w ↦
          let (c, e, i, least) = pick_nonempty ramping (ltb→lt _ _ w) in
          let (k, is) = In-keep (is_warming fl now) pool i in
          (
            c,
            rw (r, w) e,
            record {
              in_pool = k;
              prefers_ready = λ x j q. absurd (no_ready r x j q);
              avoids_failing = λ x j q. warming_not_failing c is;
            },
          )
      | inr w ↦ elim (Bool-cases (ltb 0 (length failing))) [
        | inl f ↦
            let (c, e, i, least) = pick_nonempty failing (ltb→lt _ _ f) in
            (c, rw (r, w, f) e, last_resort r w c (In-keep (is_failing now) pool i).0)
        | inr f ↦
            let (c, e, i, least) = pick_nonempty pool h in (c, rw (r, w, f) e, last_resort r w c i)
      ]
    ]
  ]
    where
      ready : List (BackendState F)
      ready = keep (is_ready fl now) pool

      ramping : List (BackendState F)
      ramping = keep (is_warming fl now) pool

      no_ready :
          ltb 0 (length ready) ≡ false
          → (x : BackendState F) → In x pool
          → is_ready fl now x ≡ true
          → ⊥
      no_ready r x j q =
          let n = length-In ready (keep-In (is_ready fl now) pool j q) in ground arith

      no_warming :
          ltb 0 (length ramping) ≡ false
          → (x : BackendState F) → In x pool
          → is_warming fl now x ≡ true
          → ⊥
      no_warming w x j q =
          let n = length-In ramping (keep-In (is_warming fl now) pool j q) in ground arith

      failing : List (BackendState F)
      failing = keep (is_failing now) pool

      last_resort :
          ltb 0 (length ready) ≡ false
          → ltb 0 (length ramping) ≡ false
          → (c : BackendState F) → In c pool
          → IsBestFor pool c
      last_resort r w c i = record {
        in_pool = i;
        prefers_ready = λ x j q. absurd (no_ready r x j q);
        avoids_failing = λ x j q. elim (live_cases x q) [
          | inl a ↦ absurd (no_ready r x j a)
          | inr a ↦ absurd (no_warming w x j a)
        ];
      }
