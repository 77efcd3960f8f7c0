-- ===== src/Tests/Metrics.antt =====
-- A page of SGLang metrics.
use llm_proxy.Base.{
  ℕ, ◌≡◌, refl, false, List, [], ◌∷◌, Option, none, some, String, All, if◌then◌else◌, ◌==◌, text_eq,
}
use llm_proxy.Base.Int.{pos}
use llm_proxy.Base.Text.{trim_space, trim_left, trim_right, is_blank, is_space}
use llm_proxy.Balancer.Parser.{
  ScrapeResult, auto, metric_of, record_metric, parse_vlml_line, parse_sg_lang_line,
  parse_auto_line, parse_lines, split_space, without_labels,
}
use llm_proxy.Balancer.Parser.Detect.{IsForeign}

abbrev page : List String
page = "sglang:num_running_reqs{tp=\"0\"} 4" ∷ "sglang:num_queue_reqs 7" ∷ []

abbrev digit : String → Option ℕ
digit s = if s == "4" then some 4 else if s == "7" then some 7 else none

abbrev unread : ScrapeResult ℕ
unread = record { running_reqs = pos 0; waiting_reqs = pos 0; kv_cache_pct = 0; parsed = false }

foreign : All (IsForeign digit pos) page
unfolding parse_vlml_line metric_of record_metric split_space without_labels trim_space trim_left
    trim_right is_blank is_space
foreign = (λ r. refl, (λ r. refl, tt))

-- The queue of 7 requests is lost.
queue_lost : (parse_lines digit pos auto page unread).waiting_reqs ≡ pos 0
unfolding parse_lines parse_auto_line parse_sg_lang_line parse_vlml_line metric_of record_metric
    split_space without_labels trim_space trim_left trim_right is_blank is_space
queue_lost = refl

abbrev vlml_page : List String
vlml_page =
    "# HELP vllm:num_requests_running" ∷ "vllm:num_requests_running 7"
    ∷ "vllm:num_requests_running 4" ∷ []
