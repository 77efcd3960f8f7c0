-- ===== src/Proxy/Body/Translate.antt =====
-- `translateParams` of internal/proxy/server.go. `to_int` is Go's conversion of a float64 to an int.
use llm_proxy.Base.{
  Bool, true, false, ◌&&◌, ◌||◌, ◌≡◌, refl, ap, ◌∙◌, Option, none, some, String, if◌then◌else◌,
  ◌==◌, text_eq, arith, inl, inr, Option-cases,
}
use llm_proxy.Base.Int.{ℤ, pos, is_zero}
use llm_proxy.Base.Floats.{Floats}
use llm_proxy.Json.{
  Value, Object, bool, num, int, str, obj, end, field, get, put, drop, is_true, get-put, get-drop,
}
use llm_proxy.Config.Types.{Backend}
use llm_proxy.Proxy.Stream.{object_or_nil}

-- The keys that the translation may write, and those that it removes.
abbrev pub written : String → Bool
written k =
    "stream_options" == k || "chat_template_kwargs" == k || "temperature" == k || "thinking" == k

abbrev pub removed : String → Bool
removed k = "thinking_budget" == k || "enable_thinking" == k

written-false :
    (k : String)
    → written k ≡ false
    → (("stream_options" == k) ≡ false)
      × (("chat_template_kwargs" == k) ≡ false)
      × (("temperature" == k) ≡ false)
      × (("thinking" == k) ≡ false)
written-false k w = (ground arith, ground arith, ground arith, ground arith)

module _ {N : Type 0} where
  get-put_other :
      (j k : String) (v : Value N) (m : Object N) → (j == k) ≡ false → get k (put j v m) ≡ get k m
  get-put_other j k v m n = ground (arith, get-put j k v m)

  either :
      (b : Bool) (k : String) (m x y : Object N)
      → get k x ≡ get k m
      → get k y ≡ get k m
      → get k (if b then x else y) ≡ get k m
  either true k m x y p q = p
  either false k m x y p q = q

module _ (Fl : Floats) (to_int : Fl.F → ℤ) where
  -- int(v), where v, _ := body[key].(float64)
  abbrev number_or_zero : Option (Value Fl.F) → ℤ
  number_or_zero (some (num v)) = to_int v
  number_or_zero _ = pos 0

  -- if mt, _ := body["max_tokens"].(float64); mt > 0
  abbrev positive_or_zero : Option (Value Fl.F) → ℤ
  positive_or_zero (some (num v)) = if Fl.lt (Fl.of_int (pos 0)) v then to_int v else pos 0
  positive_or_zero _ = pos 0

  unfoldable pub thinking_budget : Object Fl.F → ℤ → ℤ
  thinking_budget body asked =
      let from_max = positive_or_zero (get "max_tokens" body) in
      let budget = if is_zero asked then from_max else asked in
      if is_zero budget then pos 8000 else budget

  unfoldable pub include_usage : Object Fl.F → Object Fl.F
  include_usage body =
      let opts = object_or_nil (get "stream_options" body) in
      put "stream_options" (obj (put "include_usage" (bool true) opts)) body

  unfoldable pub translate_thinking : Backend → Value Fl.F → ℤ → Object Fl.F → Object Fl.F
  unfolding thinking_budget
  translate_thinking backend enable asked body =
      if backend.type == "openai"
      then put "chat_template_kwargs"
          (obj (put "enable_thinking" enable (object_or_nil (get "chat_template_kwargs" body))))
          body
      else if backend.type == "anthropic" && is_true (some enable)
      then put "temperature" (num (Fl.of_int (pos 1))) (
          put "thinking"
            (obj (
              field "type" (str "enabled")
                (field "budget_tokens" (int (thinking_budget body asked)) end)))
            body)
      else body

  unfoldable pub translate_params : Object Fl.F → Backend → Bool → Object Fl.F
  unfolding include_usage translate_thinking
  translate_params body backend streaming =
      let usage = if streaming && backend.type == "openai" then include_usage body else body in
      let asked = number_or_zero (get "thinking_budget" usage) in
      let rest = drop "thinking_budget" (drop "enable_thinking" usage) in
      elim (get "enable_thinking" usage) [
        | none ↦ rest
        | some enable ↦ translate_thinking backend enable asked rest
      ]

  get-include_usage :
      (body : Object Fl.F) (k : String)
      → written k ≡ false
      → get k (include_usage body) ≡ get k body
  unfolding include_usage
  get-include_usage body k w =
      let (a, b, c, d) = written-false k w in get-put_other "stream_options" k _ body a

  get-translate_thinking :
      (backend : Backend) (enable : Value Fl.F) (asked : ℤ) (body : Object Fl.F) (k : String)
      → written k ≡ false
      → get k (translate_thinking backend enable asked body) ≡ get k body
  unfolding translate_thinking
  get-translate_thinking backend enable asked body k w =
      let (a, b, c, d) = written-false k w in
      either (backend.type == "openai") k body _ _ (get-put_other "chat_template_kwargs" k _ body b)
        (either (backend.type == "anthropic" && is_true (some enable)) k body _ _
          (get-put_other "temperature" k _ _ c ∙ get-put_other "thinking" k _ body d) refl)

  get-drops :
      (body : Object Fl.F) (k : String)
      → get k (drop "thinking_budget" (drop "enable_thinking" body))
        ≡ (if removed k then none else get k body)
  get-drops body k = ground (
    arith,
    get-drop "thinking_budget" k (drop "enable_thinking" body),
    get-drop "enable_thinking" k body,
  )

  -- Under every key but the four that the translation writes, the translated body holds what the
  -- body held, except that the two thinking parameters are gone.
  pub get-translate_params :
      (body : Object Fl.F) (backend : Backend) (streaming : Bool) (k : String)
      → written k ≡ false
      → get k (translate_params body backend streaming) ≡ (if removed k then none else get k body)
  unfolding translate_params
  get-translate_params body backend streaming k w =
      let usage = if streaming && backend.type == "openai" then include_usage body else body in
      let asked = number_or_zero (get "thinking_budget" usage) in
      let rest = drop "thinking_budget" (drop "enable_thinking" usage) in
      let used =
        either (streaming && backend.type == "openai") k body (include_usage body) body
          (get-include_usage body k w) refl in
      let kept = get-drops usage k ∙ ap (λ o. if removed k then none else o) used in
      elim (Option-cases (get "enable_thinking" usage)) [
        | inl e ↦ rw (e, translate_params) kept
        | inr (enable, e) ↦
            rw (e, translate_params) (get-translate_thinking backend enable asked rest k w ∙ kept)
      ]
