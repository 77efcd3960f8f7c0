-- ===== src/Balancer/Select/Least.antt =====
-- The backend that `pickLeastLoaded` returns.
use llm_proxy.Base.{
  ℕ, zero, suc, ◌%◌, ◌<◌, ◌≡◌, ◌⊎◌, ◌||◌, refl, true, false, List, [], ◌∷◌, ◌++◌, some, length,
  get_elem?, ◌==◌, number_eq, arith, Bool-cases, inl, inr, In, here, there, length-append,
}
use llm_proxy.Base.Floats.{Floats}
use llm_proxy.Balancer.Select.{least_tied, pick_tied, pick_least}

pub In-append_left {ℓ} : {A : Type ℓ} {a : A} (xs ys : List A) → In a xs → In a (xs ++ ys)
In-append_left [] ys i = elim i [ ]
In-append_left (x ∷ xs) ys (here e) = here e
In-append_left (x ∷ xs) ys (there i) = there (In-append_left xs ys i)

pub In-append_right {ℓ} : {A : Type ℓ} {a : A} (xs ys : List A) → In a ys → In a (xs ++ ys)
In-append_right [] ys i = i
In-append_right (x ∷ xs) ys i = there (In-append_right xs ys i)

In-append {ℓ} : {A : Type ℓ} {a : A} (xs ys : List A) → In a (xs ++ ys) → In a xs ⊎ In a ys
In-append [] ys i = inr i
In-append (x ∷ xs) ys (here e) = inl (here e)
In-append (x ∷ xs) ys (there i) = elim (In-append xs ys i) [ inl k ↦ inl (there k) | inr k ↦ inr k ]

pub get_elem-In {ℓ} :
    {A : Type ℓ} (xs : List A) (i : ℕ)
    → i < length xs
    → (a : A) × (get_elem? xs i ≡ some a) × In a xs
get_elem-In [] i h = absurd (omega arith)
get_elem-In (x ∷ xs) zero h = (x, refl, here refl)
get_elem-In (x ∷ xs) (suc i) h = let (a, e, m) = get_elem-In xs i (omega arith) in (a, e, there m)

module _ {ℓ} (fl : Floats) {A : Type ℓ} (score : A → fl.F) where
  open fl use {F, lt, eq, lt_irrefl, lt_trans, lt_of_eq}

  -- What does not score below `b` does not score below `c`.
  abbrev Bounds : F → F → Type 0
  Bounds b c = (x : F) → lt x b ≡ false → lt x c ≡ false

  Bounds-lt : (b c : F) → lt c b ≡ true → Bounds b c
  Bounds-lt b c h x k = elim (Bool-cases (lt x c)) [
    | inl p ↦ cc (k, lt_trans x c b p h)
    | inr p ↦ p
  ]

  -- Every backend that the loop ends with scores no higher than the best so far, nor than any
  -- backend still to come.
  record IsLeast (best : F) (rest : List A) (a : A) : Type ℓ where
    low : Bounds best (score a)
    least : (x : A) → In x rest → lt (score x) (score a) ≡ false

  IsLeast-cons :
      (best best' : F) (b : A) (rest : List A) {a : A}
      → Bounds best best'
      → lt (score b) best' ≡ false
      → IsLeast best' rest a
      → IsLeast best (b ∷ rest) a
  IsLeast-cons best best' b rest {a} bound fits h = record {
    low = λ x k. h.low x (bound x k);
    least = λ x i. go x i;
  }
    where
      go : (x : A) → In x (b ∷ rest) → lt (score x) (score a) ≡ false
      go x (here e) = rw (← e) (h.low (score b) fits)
      go x (there i) = h.least x i

  least_tied-IsLeast :
      (best : F) (tied rest : List A)
      → ((a : A) → In a tied → Bounds best (score a))
      → (a : A) → In a (least_tied fl score best tied rest)
      → IsLeast best rest a
  unfolding least_tied
  least_tied-IsLeast best tied [] same a i = record { low = same a i; least = λ x k. elim k [ ] }
  least_tied-IsLeast best tied (b ∷ rest) same a i = elim (Bool-cases (lt (score b) best)) [
    | inl p ↦
        IsLeast-cons best (score b) b rest (Bounds-lt best (score b) p) (lt_irrefl (score b))
          (least_tied-IsLeast (score b) (b ∷ []) rest only a (rw p at i))
    | inr p ↦ elim (Bool-cases (eq (score b) best)) [
      | inl q ↦
          IsLeast-cons best best b rest (λ x k. k) p
            (least_tied-IsLeast best (tied ++ b ∷ []) rest (joined q) a (rw (p, q) at i))
      | inr q ↦
          IsLeast-cons best best b rest (λ x k. k) p
            (least_tied-IsLeast best tied rest same a (rw (p, q) at i))
    ]
  ]
    where
      only : (a : A) → In a (b ∷ []) → Bounds (score b) (score a)
      only a (here e) = rw (← e) (λ x k. k)
      only a (there i) = elim i [ ]

      joined : eq (score b) best ≡ true → (a : A) → In a (tied ++ b ∷ []) → Bounds best (score a)
      joined q a i = elim (In-append tied (b ∷ []) i) [
        | inl k ↦ same a k
        | inr k ↦ λ x h. only a k x (lt_of_eq (score b) best x q h)
      ]

  least_tied-In :
      (all : List A) (best : F) (tied rest : List A)
      → ((a : A) → In a tied → In a all)
      → ((a : A) → In a rest → In a all)
      → (a : A) → In a (least_tied fl score best tied rest)
      → In a all
  unfolding least_tied
  least_tied-In all best tied [] t r a i = t a i
  least_tied-In all best tied (b ∷ rest) t r a i = elim (Bool-cases (lt (score b) best)) [
    | inl p ↦ least_tied-In all (score b) (b ∷ []) rest only r' a (rw p at i)
    | inr p ↦ elim (Bool-cases (eq (score b) best)) [
      | inl q ↦ least_tied-In all best (tied ++ b ∷ []) rest joined r' a (rw (p, q) at i)
      | inr q ↦ least_tied-In all best tied rest t r' a (rw (p, q) at i)
    ]
  ]
    where
      r' : (a : A) → In a rest → In a all
      r' a i = r a (there i)

      only : (a : A) → In a (b ∷ []) → In a all
      only a (here e) = r a (here e)
      only a (there i) = elim i [ ]

      joined : (a : A) → In a (tied ++ b ∷ []) → In a all
      joined a i = elim (In-append tied (b ∷ []) i) [ inl k ↦ t a k | inr k ↦ only a k ]

  least_tied-some :
      (best : F) (tied rest : List A)
      → 0 < length tied
      → 0 < length (least_tied fl score best tied rest)
  unfolding least_tied
  least_tied-some best tied [] h = h
  least_tied-some best tied (b ∷ rest) h = ground (
    arith,
    least_tied-some (score b) (b ∷ []) rest,
    least_tied-some best (tied ++ b ∷ []) rest,
    least_tied-some best tied rest h,
    length-append tied (b ∷ []),
  )

  pick_tied-In :
      (hash : ℕ) (tied : List A)
      → 0 < length tied
      → (a : A) × (pick_tied fl score hash tied ≡ some a) × In a tied
  unfolding pick_tied
  pick_tied-In hash tied h = elim (Bool-cases (length tied == 1 || hash == 0)) [
    | inl e ↦ rw e (get_elem-In tied 0 h)
    | inr e ↦ rw e (get_elem-In tied (hash % length tied) (grind arith))
  ]

  -- The pick of a pool that is not empty is one of the pool, and none of the pool scores below it.
  pub pick_least-least :
      (hash : ℕ) (b : A) (bs : List A)
      → (a : A) × (pick_least fl score hash (b ∷ bs) ≡ some a)
        × In a (b ∷ bs)
        × ((x : A) → In x (b ∷ bs) → lt (score x) (score a) ≡ false)
  unfolding pick_least
  pick_least-least hash b bs =
      let tied = least_tied fl score (score b) (b ∷ []) bs in
      let (a, e, i) =
        pick_tied-In hash tied (least_tied-some (score b) (b ∷ []) bs (omega arith)) in
      (
        a,
        e,
        least_tied-In (b ∷ bs) (score b) (b ∷ []) bs only (λ x k. there k) a i,
        below a (least_tied-IsLeast (score b) (b ∷ []) bs same a i),
      )
    where
      only : (a : A) → In a (b ∷ []) → In a (b ∷ bs)
      only a (here e) = here e
      only a (there i) = elim i [ ]

      same : (a : A) → In a (b ∷ []) → Bounds (score b) (score a)
      same a (here e) = rw (← e) (λ x k. k)
      same a (there i) = elim i [ ]

      below :
          (a : A)
          → IsLeast (score b) bs a
          → (x : A) → In x (b ∷ bs)
          → lt (score x) (score a) ≡ false
      below a h x (here e) = rw (← e) (h.low (score b) (lt_irrefl (score b)))
      below a h x (there i) = h.least x i
