-- ===== src/Tests/Journals.antt =====
-- The journal and the logger on small inputs.
use llm_proxy.Base.{
  ℕ, ◌↔◌, ◌≡◌, refl, false, true, none, some, String, Option, if◌then◌else◌, ◌==◌, text_eq, leb,
}
use llm_proxy.Base.Int.{ℤ, pos}
use llm_proxy.Base.Text.{bytes, trim_space}
use llm_proxy.Json.{get}
use llm_proxy.Proxy.Body.{estimate_tokens}
use llm_proxy.Journal.{analyze, count_json_blocks, count_fences}
use llm_proxy.Journal.Blocks.{Rounds, count_json_blocks-Rounds}
use llm_proxy.Journal.Signals.{without_text, analyze-false, est_tokens-analyze}
use llm_proxy.Logger.{LogCall, prints, apply, level_of, IsAsked, IsBuilt, prints-apply}
use llm_proxy.Tests.Data.{body}

abbrev one_block : String
one_block =
    "See ```json [10000000, 20000000, 30000000, 40000000, 50000000, 60000000] ``` and ```json [] ```."

one_block_counted : count_json_blocks one_block ≡ 1
unfolding count_json_blocks bytes trim_space
one_block_counted = refl

fences_counted : count_fences 0 one_block ≡ 4
unfolding count_fences
fences_counted = refl

count_json_blocks-Rounds_example : Rounds one_block (count_json_blocks one_block)
count_json_blocks-Rounds_example = count_json_blocks-Rounds one_block

analyze-false_example : analyze false body "openai" ≡ without_text (analyze true body "openai")
analyze-false_example = analyze-false body "openai"

est_tokens-analyze_example : (analyze true body "openai").est_tokens ≡ estimate_tokens body
unfolding get
est_tokens-analyze_example = est_tokens-analyze true body "openai" refl

abbrev read_level : String → Option ℤ
read_level s = if s == "4" then some (pos 4) else none

prints-apply_example :
    (n : ℕ) × IsAsked (some (pos 4)) none n
    × ((call : LogCall)
        → (prints true (apply true read_level none "4") call ≡ true)
          ↔ (IsBuilt true call × (leb (level_of call) n ≡ true)))
prints-apply_example = prints-apply true read_level none "4"
