-- ===== src/Router/Merge.antt =====
-- What the three layers of `mergeParams` leave under a key.
use llm_proxy.Base.{
  ◌≡◌, refl, ap, Bool, true, Option, none, some, String, if◌then◌else◌, ◌==◌, text_eq, text_iff,
  arith, inl, inr, Bool-cases,
}
use llm_proxy.Json.{Object, Value, end, field, get, get-put}
use llm_proxy.Router.{put_all, merge_params, sampling_keys}

abbrev pub or_else {ℓ} : {A : Type ℓ} → Option A → Option A → Option A
or_else (some a) o = some a
or_else none o = o

module _ {F : Type 0} where
  get-put_all :
      (p : String → Bool) (k : String) (m out : Object F)
      → get k (put_all p m out) ≡ (if p k then or_else (get k m) (get k out) else get k out)
  unfolding put_all get
  get-put_all p k end out = ground arith
  get-put_all p k (field j v m) out =
      let rest = put_all p m out in
      elim (Bool-cases (j == k)) [
        | inl e ↦
            let same : p j ≡ p k = ap p ((text_iff j k).0 e) in
            let q = get-put_all p k m out in let w = get-put j k v rest in ground arith
        | inr e ↦ let q = get-put_all p k m out in let w = get-put j k v rest in ground arith
      ]

  -- Under every key the merged parameters hold the clamp's value if there is one; else, for a
  -- sampling key, the caller's if there is one; else the default.
  pub get-merge_params :
      (defaults body clamp : Object F) (k : String)
      → get k (merge_params defaults body clamp)
        ≡ or_else
            (get k clamp)
            (if sampling_keys k then or_else (get k body) (get k defaults) else get k defaults)
  unfolding merge_params get
  get-merge_params defaults body clamp k =
      let d = put_all (λ _. true) defaults end in
      let b = put_all sampling_keys body d in
      rw
        (
          get-put_all (λ _. true) k clamp b,
          get-put_all sampling_keys k body d,
          get-put_all (λ _. true) k defaults end,
        )
        (tail (get k defaults))
    where
      tail :
          (o : Option (Value F))
          → or_else
              (get k clamp)
              (if sampling_keys k then or_else (get k body) (or_else o none) else or_else o none)
            ≡ or_else (get k clamp) (if sampling_keys k then or_else (get k body) o else o)
      tail none = refl
      tail (some v) = refl
