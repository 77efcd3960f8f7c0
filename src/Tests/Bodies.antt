-- ===== src/Tests/Bodies.antt =====
-- The rewriting of a body and of headers on small inputs.
use llm_proxy.Base.{
  if◌then◌else◌, ◌==◌, text_eq, String, ℕ, ◌≡◌, refl, true, [], ◌∷◌, none, String, text_eq,
  if◌then◌else◌,
}
use llm_proxy.Base.Int.{pos}
use llm_proxy.Json.{Object, end, field, bool, num, obj, get}
use llm_proxy.Config.Types.{HeadersOp, SystemPromptOp}
use llm_proxy.Proxy.Defender.{get_last_user_message}
use llm_proxy.Proxy.Body.{deep_merge_into}
use llm_proxy.Proxy.Body.Merge.{IsMap, merged_value, deep_merge_into-lem}
use llm_proxy.Proxy.Body.Translate.{removed, translate_params, get-translate_params}
use llm_proxy.Proxy.Body.Prompt.{apply_system_prompt, get_last_user_message-apply_system_prompt}
use llm_proxy.Proxy.Headers.{Header, values, direct_headers, values-direct_headers}
use llm_proxy.Tests.Data.{fixed, body, upstream}

program : Unit {0}
unfolding IsMap get
program = tt

-- {"extra": {"top_k": 5}, "seed": 1}
abbrev injected : Object ℕ
injected = field "extra" (obj (field "top_k" (num 5) end)) (field "seed" (num 1) end)

injected-IsMap : IsMap injected
unfolding program
injected-IsMap = ((refl, tt), (tt, tt), (tt, tt))

deep_merge_into-lem_example :
    (deep_merge_into (deep_merge_into body injected) injected ≡ deep_merge_into body injected)
    × ((k : String)
        → get k (deep_merge_into body injected) ≡ merged_value (get k body) (get k injected))
deep_merge_into-lem_example = deep_merge_into-lem body injected injected-IsMap

abbrev thinking : Object ℕ
thinking = field "enable_thinking" (bool true) (field "thinking_budget" (num 64) body)

get-translate_params_example :
    get "messages" (translate_params fixed pos thinking upstream true)
    ≡ (if removed "messages" then none else get "messages" thinking)
get-translate_params_example = get-translate_params fixed pos thinking upstream true "messages" refl

abbrev polite : SystemPromptOp
polite = record { prepend = "Be polite. "; append = ""; replace = "" }

get_last_user_message-apply_system_prompt_example :
    get_last_user_message (apply_system_prompt body "openai" polite) ≡ get_last_user_message body
get_last_user_message-apply_system_prompt_example =
    get_last_user_message-apply_system_prompt body "openai" polite

abbrev discreet : HeadersOp
discreet = record { add = ("X-Team", "ml") ∷ []; remove = "Cookie" ∷ []; rename = [] }

abbrev incoming : Header
incoming = ("Cookie", "a=1" ∷ []) ∷ ("Accept", "*/*" ∷ []) ∷ []

abbrev written_small : String → String
written_small name = if name == "cookie" then "Cookie" else name

values-direct_headers_example :
    values (direct_headers written_small upstream discreet incoming) "Cookie" ≡ []
values-direct_headers_example =
    values-direct_headers written_small upstream discreet incoming "Cookie" refl refl
