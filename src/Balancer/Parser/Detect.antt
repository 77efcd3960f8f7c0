-- ===== src/Balancer/Parser/Detect.antt =====
-- What the parser makes of a page of metrics.
use llm_proxy.Base.{
  ◌≡◌, refl, ap, ◌∙◌, true, false, List, [], ◌∷◌, Option, String, All, if◌then◌else◌, text_eq,
  arith, inl, inr, Bool-cases, Option-cases,
}
use llm_proxy.Base.Int.{ℤ}
use llm_proxy.Balancer.Parser.{
  ScrapeResult, auto, metric_of, record_metric, parse_vlml_line, parse_sg_lang_line,
  parse_auto_line, parse_lines,
}

module _ {F : Type 0} (parse_float : String → Option F) (to_int : F → ℤ) where
  -- A line that the vLLM parser leaves a result unchanged for.
  abbrev pub IsForeign : String → Type 0
  IsForeign line = (r : ScrapeResult F) → parse_vlml_line parse_float to_int line r ≡ r

  -- The first line that the SGLang parser reads, alone.
  unfoldable pub first_read : List String → ScrapeResult F → ScrapeResult F
  first_read [] r = r
  first_read (line ∷ lines) r =
      let read = parse_sg_lang_line parse_float to_int line r in
      let rest = first_read lines r in if read.parsed then read else rest

  record_metric-unparsed :
      (a b c : String) (m : String × F) (r : ScrapeResult F)
      → (record_metric parse_float to_int a b c m r).parsed ≡ false
      → record_metric parse_float to_int a b c m r ≡ r
  unfolding record_metric
  record_metric-unparsed a b c (name, v) r h = ground arith

  parse_sg_lang_line-unparsed :
      (line : String) (r : ScrapeResult F)
      → (parse_sg_lang_line parse_float to_int line r).parsed ≡ false
      → parse_sg_lang_line parse_float to_int line r ≡ r
  unfolding parse_sg_lang_line
  parse_sg_lang_line-unparsed line r h = elim (Option-cases (metric_of parse_float to_int line)) [
    | inl n ↦ rw (n, parse_sg_lang_line) refl
    | inr (m, n) ↦
        rw (n, parse_sg_lang_line)
          (record_metric-unparsed "sglang:num_running_reqs" "sglang:num_queue_reqs"
            "sglang:mem_usage_ratio" m r (rw (n, parse_sg_lang_line) at h))
  ]

  auto_known :
      (line : String) (r : ScrapeResult F)
      → IsForeign line
      → r.parsed ≡ true
      → parse_auto_line parse_float to_int line r ≡ r
  unfolding parse_auto_line
  auto_known line r g h = let same = g r in ground arith

  auto_new :
      (line : String) (r : ScrapeResult F)
      → IsForeign line
      → r.parsed ≡ false
      → parse_auto_line parse_float to_int line r ≡ parse_sg_lang_line parse_float to_int line r
  unfolding parse_auto_line
  auto_new line r g h = let same = g r in ground arith

  -- Once something was read, foreign lines change nothing.
  parse_lines-parsed :
      (lines : List String) (r : ScrapeResult F)
      → All IsForeign lines
      → r.parsed ≡ true
      → parse_lines parse_float to_int auto lines r ≡ r
  unfolding parse_lines
  parse_lines-parsed [] r f h = refl
  parse_lines-parsed (line ∷ lines) r (g, f) h =
      ap (parse_lines parse_float to_int auto lines) (auto_known line r g h)
      ∙ parse_lines-parsed lines r f h

  -- For a result that has read nothing yet, on lines that the vLLM parser reads nothing from,
  -- auto-detection reads the first line that is an SGLang metric and none of the others.
  pub parse_lines-first_read :
      (lines : List String) (r : ScrapeResult F)
      → All IsForeign lines
      → r.parsed ≡ false
      → parse_lines parse_float to_int auto lines r ≡ first_read lines r
  unfolding parse_lines first_read
  parse_lines-first_read [] r f h = refl
  parse_lines-first_read (line ∷ lines) r (g, f) h =
      let read = parse_sg_lang_line parse_float to_int line r in
      let step : parse_lines parse_float to_int auto lines
            (parse_auto_line parse_float to_int line r)
          ≡ parse_lines parse_float to_int auto lines read =
        ap (parse_lines parse_float to_int auto lines) (auto_new line r g h) in
      elim (Bool-cases read.parsed) [
        | inl p ↦ let rest = parse_lines-parsed lines read f p in step ∙ rest ∙ ground arith
        | inr p ↦
            let same =
              ap (parse_lines parse_float to_int auto lines)
                (parse_sg_lang_line-unparsed line r p) in
            step ∙ same ∙ parse_lines-first_read lines r f h ∙ ground arith
      ]
