-- ===== src/Proxy/Headers.antt =====
-- The headers of a request (internal/proxy/server.go): the bearer token, the headers for a backend,
-- the operations of a backend and a route on them, and what the debug capture shows of them.
-- The names of a header are canonical, as net/http makes them; the values of one name are a list.
-- `canonical` is http.CanonicalHeaderKey, `to_lower` is strings.ToLower, and `join` is strings.Join with ", ".
use Prim.Native.String.{◌++◌ as text_append}
use llm_proxy.Base.{
  Bool, true, false, not, ◌&&◌, ◌||◌, ◌≡◌, refl, sym, subst, ap, ◌∙◌, Option, none, some, List, [],
  ◌∷◌, String, Map, lookup, insert, delete, lookup-insert, lookup-delete, if◌then◌else◌, ◌==◌,
  text_eq, text_iff, arith, inl, inr, Bool-cases, any,
}
use llm_proxy.Config.Types.{Backend, HeadersOp}

-- http.Header
abbrev pub Header : Type 0
Header = Map (List String)

abbrev values_of : Option (List String) → List String
values_of none = []
values_of (some vs) = vs

-- h.Values(name), and h.Get(name)
unfoldable pub values : Header → String → List String
values h name = values_of (lookup name h)

abbrev pub first_value : List String → String
first_value [] = ""
first_value (v ∷ vs) = v

module _ (canonical : String → String) where
  -- One entry of `Rename`: the values go to the new name, and the old one goes.
  unfoldable pub rename : String → String → Header → Header
  unfolding values
  rename src dst h = elim (values h (canonical src)) [
    | [] ↦ h
    | v ∷ vs ↦ delete (canonical src) (insert (canonical dst) (v ∷ vs) h)
  ]

  unfoldable pub rename_all : Map String → Header → Header
  unfolding rename
  rename_all [] h = h
  rename_all ((src, dst) ∷ more) h = rename_all more (rename src dst h)

  -- The slot of X-Forwarded-For is set to nil, so that net/http does not fill it.
  unfoldable pub remove_all : List String → Header → Header
  remove_all [] h = h
  remove_all (name ∷ more) h = remove_all more (
      if canonical name == "X-Forwarded-For"
      then insert "X-Forwarded-For" [] h
      else delete (canonical name) h)

  unfoldable pub add_all : Map String → Header → Header
  add_all [] h = h
  add_all ((name, value) ∷ more) h = add_all more (insert (canonical name) (value ∷ []) h)

  unfoldable pub apply_header_ops : HeadersOp → Header → Header
  unfolding rename_all remove_all add_all
  apply_header_ops op h = add_all op.add (remove_all op.remove (rename_all op.rename h))

unfoldable pub auth_type : Backend → String
auth_type b =
    if not (b.auth_type == "")
    then b.auth_type
    else if b.type == "anthropic"
    then "x-api-key"
    else "bearer"

unfoldable pub authorize : Backend → Header → Header
unfolding auth_type values
authorize b h =
    if b.api_key == ""
    then h
    else (let keyed =
          if auth_type b == "x-api-key"
          then insert "X-Api-Key" (b.api_key ∷ []) h
          else insert "Authorization" (text_append "Bearer " b.api_key ∷ []) h in
        if b.type == "anthropic" && first_value (values keyed "Anthropic-Version") == ""
        then insert "Anthropic-Version" ("2023-06-01" ∷ []) keyed
        else keyed)

-- The headers that `director` leaves: the backend's operations first, then the route's.
unfoldable pub direct_headers : (String → String) → Backend → HeadersOp → Header → Header
unfolding authorize apply_header_ops
direct_headers canonical b route_headers h =
    let sent =
      delete "Transfer-Encoding"
        (insert "Content-Type" ("application/json" ∷ []) (authorize b h)) in
    apply_header_ops canonical route_headers (apply_header_ops canonical b.headers sent)

-- `bearerAuth`: whether the request goes on; the comparison is constant-time in the code.
unfoldable pub is_authorized : String → Header → Bool
unfolding values
is_authorized api_key h =
    api_key == "" || first_value (values h "Authorization") == text_append "Bearer " api_key

unfoldable pub is_sensitive : String → Bool
is_sensitive k =
    k == "authorization"
    || k == "x-api-key"
    || k == "cookie"
    || k == "set-cookie"
    || k == "proxy-authorization"

unfoldable pub safe_headers : (String → String) → (List String → String) → Header → Map String
unfolding is_sensitive
safe_headers to_lower join [] = []
safe_headers to_lower join ((k, vs) ∷ h) =
    insert k (if is_sensitive (to_lower k) then "[redacted]" else join vs)
      (safe_headers to_lower join h)

both : (b : Bool) (x : Option (List String)) → (if b then x else x) ≡ x
both true x = refl
both false x = refl

module _ (canonical : String → String) where
  -- Whether one of the entries is for the name.
  abbrev pub adds : Map String → String → Bool
  adds op k = any (λ e. canonical e.0 == k) op

  lookup-add_all :
      (op : Map String) (k : String) (h : Header)
      → adds op k ≡ false
      → lookup k (add_all canonical op h) ≡ lookup k h
  unfolding add_all
  lookup-add_all [] k h n = refl
  lookup-add_all ((name, value) ∷ more) k h n =
      lookup-add_all more k (insert (canonical name) (value ∷ []) h) (ground arith)
      ∙ ground (arith, lookup-insert (canonical name) k (value ∷ []) h)

  lookup-remove_all :
      (names : List String) (k : String) (h : Header)
      → lookup k (remove_all canonical names h) ≡ (
          if any (λ n. canonical n == k) names
          then (if k == "X-Forwarded-For" then some [] else none)
          else lookup k h)
  unfolding remove_all
  lookup-remove_all [] k h = refl
  lookup-remove_all (name ∷ more) k h = elim (Bool-cases (canonical name == "X-Forwarded-For")) [
    | inl x ↦
        let same : canonical name ≡ "X-Forwarded-For" =
          (text_iff (canonical name) "X-Forwarded-For").0 x in
        let rest = lookup-remove_all more k (insert "X-Forwarded-For" [] h) in
        let new =
          ap (λ n. lookup k (insert n [] h)) (sym same) ∙ lookup-insert (canonical name) k [] h in
        elim (Bool-cases (canonical name == k)) [
          | inl e ↦
              let k' : (k == "X-Forwarded-For") ≡ true =
                subst (λ n. (n == "X-Forwarded-For") ≡ true) ((text_iff (canonical name) k).0 e)
                  x in
              rw (x, e) (rest ∙ rw (new, e, k') (both (any (λ n. canonical n == k) more) (some [])))
          | inr e ↦ rw (x, e) (rest ∙ rw (new, e) refl)
        ]
    | inr x ↦
        let rest = lookup-remove_all more k (delete (canonical name) h) in
        let new = lookup-delete (canonical name) k h in
        elim (Bool-cases (canonical name == k)) [
          | inl e ↦
              let k' : (k == "X-Forwarded-For") ≡ false =
                subst (λ n. (n == "X-Forwarded-For") ≡ false) ((text_iff (canonical name) k).0 e)
                  x in
              rw (x, e) (rest ∙ rw (new, e, k') (both (any (λ n. canonical n == k) more) none))
          | inr e ↦ rw (x, e) (rest ∙ rw (new, e) refl)
        ]
  ]

  values-apply_header_ops :
      (op : HeadersOp) (h : Header) (k : String)
      → any (λ n. canonical n == k) op.remove ≡ true
      → adds op.add k ≡ false
      → values (apply_header_ops canonical op h) k ≡ []
  unfolding apply_header_ops values
  values-apply_header_ops op h k r a =
      let renamed = rename_all canonical op.rename h in
      let left = lookup-add_all op.add k (remove_all canonical op.remove renamed) a in
      let gone = lookup-remove_all op.remove k renamed in
      let empty : (b : Bool) → values_of (if b then some [] else none) ≡ [] = λ b.
        elim b as (λ b. values_of (if b then some [] else none) ≡ []) [
          | true ↦ refl
          | false ↦ refl
        ] in
      ap values_of (left ∙ gone) ∙ rw r (empty (k == "X-Forwarded-For"))

  -- A header that a route removes and does not add, in whatever case its name is written, has no
  -- values in the request that the director makes for the backend, whatever the client sent,
  -- whatever the backend's key is, and whatever the backend's operations do.
  pub values-direct_headers :
      (b : Backend) (route : HeadersOp) (h : Header) (k : String)
      → any (λ n. canonical n == k) route.remove ≡ true
      → adds route.add k ≡ false
      → values (direct_headers canonical b route h) k ≡ []
  unfolding direct_headers
  values-direct_headers b route h k r a = values-apply_header_ops route _ k r a
