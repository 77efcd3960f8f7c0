-- ===== src/Balancer/Parser.antt =====
-- internal/balancer/parser.go: the metrics of vLLM and SGLang in Prometheus' text format. The input
-- is the list of lines that bufio.Scanner yields; `parse_float` is strconv.ParseFloat, and `to_int`
-- the conversion of a float64 to int.
pub mod Detect
pub mod Last
use Prim.Native.Char.{code}
use Prim.Native.String
use text.Mathlib.Text.{starts_with}
use llm_proxy.Base.{
  ◌||◌, Bool, true, false, List, [], ◌∷◌, Option, none, some, String, map_option, if◌then◌else◌,
  ◌==◌, number_eq, text_eq,
}
use llm_proxy.Base.Int.{ℤ, pos}
use llm_proxy.Base.Text.{trim_space}

pub record ScrapeResult (F : Type 0) : Type 0 where
  pub running_reqs : ℤ
  pub waiting_reqs : ℤ
  pub kv_cache_pct : F
  pub parsed : Bool

-- `EngineType`; any other text means auto-detection.
pub data Engine : Type 0 where
  vlml sg_lang auto : Engine

-- strings.SplitN(line, " ", 2), where it gives two parts
unfoldable pub split_space : String → Option (String × String)
split_space String.[] = none
split_space (String.◌∷◌ c s) =
    let rest = map_option (λ parts. (String.◌∷◌ c parts.0, parts.1)) (split_space s) in
    if code c == 0x20 then some (String.[], s) else rest

-- The name without its labels.
unfoldable pub without_labels : String → String
without_labels String.[] = String.[]
without_labels (String.◌∷◌ c s) =
    let rest = String.◌∷◌ c (without_labels s) in if code c == 0x7b then String.[] else rest

module _ {F : Type 0} (parse_float : String → Option F) (to_int : F → ℤ) where
  -- The name and the value of a line, which both line parsers read in the same way.
  unfoldable pub metric_of : String → Option (String × F)
  metric_of line = elim (split_space line) [
    | none ↦ none
    | some (name_part, value_part) ↦
        let name = trim_space name_part in
        if name == "" || starts_with name "#"
        then none
        else map_option (λ v. (without_labels name, v)) (parse_float (trim_space value_part))
  ]

  -- The switch of a line parser, for the names of its three metrics.
  unfoldable pub record_metric :
      String → String → String → String × F → ScrapeResult F → ScrapeResult F
  record_metric running waiting cache (name, v) r =
      if name == running
      then record r { running_reqs = to_int v; parsed = true }
      else if name == waiting
      then record r { waiting_reqs = to_int v; parsed = true }
      else if name == cache
      then record r { kv_cache_pct = v; parsed = true }
      else r

  unfoldable pub parse_vlml_line : String → ScrapeResult F → ScrapeResult F
  parse_vlml_line line r = elim (metric_of line) [
    | none ↦ r
    | some m ↦
        record_metric "vllm:num_requests_running" "vllm:num_requests_waiting"
          "vllm:gpu_kv_cache_usage_perc" m r
  ]

  unfoldable pub parse_sg_lang_line : String → ScrapeResult F → ScrapeResult F
  parse_sg_lang_line line r = elim (metric_of line) [
    | none ↦ r
    | some m ↦
        record_metric "sglang:num_running_reqs" "sglang:num_queue_reqs" "sglang:mem_usage_ratio" m r
  ]

  -- Both parsers are tried, the second where the first leaves the result unparsed.
  unfoldable pub parse_auto_line : String → ScrapeResult F → ScrapeResult F
  parse_auto_line line prev =
      let r = parse_vlml_line line prev in if r.parsed then r else parse_sg_lang_line line prev

  unfoldable pub parse_line : Engine → String → ScrapeResult F → ScrapeResult F
  parse_line vlml = parse_vlml_line
  parse_line sg_lang = parse_sg_lang_line
  parse_line auto = parse_auto_line

  unfoldable pub parse_lines : Engine → List String → ScrapeResult F → ScrapeResult F
  unfolding parse_line
  parse_lines engine [] r = r
  parse_lines engine (line ∷ lines) r = parse_lines engine lines (parse_line engine line r)

  unfoldable pub parse_prometheus_metrics : F → Engine → List String → ScrapeResult F
  unfolding parse_lines
  parse_prometheus_metrics nil engine lines =
      parse_lines engine lines
        (record { running_reqs = pos 0; waiting_reqs = pos 0; kv_cache_pct = nil; parsed = false })
