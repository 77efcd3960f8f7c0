-- ===== src/Proxy/Body/Options.antt =====
-- Ollama's sampling parameters (internal/proxy/server.go): flattened out of the body's options
-- before the router merges the parameters, and nested again before the request goes out. The
-- flattened keys are a list that is read as a set.
use llm_proxy.Base.{
  Bool, true, false, ◌≡◌, refl, subst, ◌∙◌, inl, inr, Bool-cases, Option-cases, text_iff, none,
  some, String, List, [], ◌∷◌, any, if◌then◌else◌, ◌==◌, text_eq, number_eq,
}
use llm_proxy.Json.{Object, obj, end, field, get, put, drop, get-put, get-drop}
use llm_proxy.Router.{put_all}
use llm_proxy.Router.Merge.{or_else}

both {ℓ} : {A : Type ℓ} (b : Bool) (x : A) → (if b then x else x) ≡ x
both true x = refl
both false x = refl

module _ {N : Type 0} where
  unfoldable pub keys : Object N → List String
  keys end = []
  keys (field k v m) = k ∷ keys m

  -- The body with the options on its top level, and their keys.
  unfoldable pub flatten_options : Object N → Object N × List String
  unfolding keys
  flatten_options body = elim (get "options" body) [
    | some (obj opts) ↦ (drop "options" (put_all (λ _. true) opts body), keys opts)
    | _ ↦ (body, [])
  ]

  -- The keys of what a route injects, where the body has them.
  unfoldable pub injected_keys : Object N → Object N → List String
  injected_keys end body = []
  injected_keys (field k v m) body =
      let rest = injected_keys m body in elim (get k body) [ none ↦ rest | some _ ↦ k ∷ rest ]

  -- The loop over the flattened keys: the options so far, and the body without them.
  unfoldable pub move_options : List String → Object N → Object N → Object N × Object N
  move_options [] options body = (options, body)
  move_options (k ∷ ks) options body = elim (get k body) [
    | none ↦ move_options ks options body
    | some v ↦ move_options ks (put k v options) (drop k body)
  ]

  unfoldable pub nest_options : List String → Object N → Object N
  unfolding move_options
  nest_options flat body =
      let (options, rest) = move_options flat end body in
      elim options [ end ↦ rest | field k v m ↦ put "options" (obj (field k v m)) rest ]

  -- After the flattened keys are nested again, none of them is left on the top level, each that
  -- the body had is among the options with its value, and every other key is where it was.
  get-move_options :
      (flat : List String) (options body : Object N) (k : String)
      → (get k (move_options flat options body).1
          ≡ (if any (λ j. j == k) flat then none else get k body))
        × (get k (move_options flat options body).0 ≡ (
            if any (λ j. j == k) flat then or_else (get k body) (get k options) else get k options))
  unfolding move_options
  get-move_options [] options body k = (refl, refl)
  get-move_options (j ∷ js) options body k = elim (Option-cases (get j body)) [
    | inl n ↦
        let rest = get-move_options js options body k in
        rw (n, move_options)
          (elim (Bool-cases (j == k)) [
            | inl e ↦
                let g : get k body ≡ none = subst (λ k. get k body ≡ none) ((text_iff j k).0 e) n in
                rw e (
                  rest.0 ∙ rw g (both (any (λ j. j == k) js) none),
                  rest.1 ∙ rw g (both (any (λ j. j == k) js) (get k options)),
                )
            | inr e ↦ rw e rest
          ])
    | inr (v, n) ↦
        let rest = get-move_options js (put j v options) (drop j body) k in
        let into = get-put j k v options in
        let gone = get-drop j k body in
        rw (n, move_options)
          (elim (Bool-cases (j == k)) [
            | inl e ↦
                let g : get k body ≡ some v =
                  subst (λ k. get k body ≡ some v) ((text_iff j k).0 e) n in
                rw (e, g)
                  (
                    rest.0 ∙ rw (gone, e) (both (any (λ j. j == k) js) none),
                    rest.1 ∙ rw (gone, into, e) (both (any (λ j. j == k) js) (some v)),
                  )
            | inr e ↦ rw e (rw (gone, into, e) at rest)
          ])
  ]
