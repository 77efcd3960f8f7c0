-- ===== src/Balancer/Parser/Last.antt =====
-- With the engine given, a page's metrics are the last values under their names.
use llm_proxy.Base.{
  ◌≡◌, refl, false, List, [], ◌∷◌, Option, none, some, String, if◌then◌else◌, ◌==◌, text_eq,
  text_iff, arith,
}
use llm_proxy.Base.Int.{ℤ, pos}
use llm_proxy.Balancer.Parser.{
  ScrapeResult, vlml, metric_of, record_metric, parse_vlml_line, parse_lines,
  parse_prometheus_metrics,
}

module _ {F : Type 0} (parse_float : String → Option F) (to_int : F → ℤ) where
  -- The value of a line under a name, and else a value from before.
  abbrev pub value_of : String → Option (String × F) → Option F → Option F
  value_of name none old = old
  value_of name (some (n, v)) old = if n == name then some v else old

  -- The last value under a name, if the lines have one.
  unfoldable pub last_value : String → List String → Option F → Option F
  last_value name [] old = old
  last_value name (line ∷ lines) old =
      last_value name lines (value_of name (metric_of parse_float to_int line) old)

  abbrev pub int_of : ℤ → Option F → ℤ
  int_of d none = d
  int_of d (some v) = to_int v

  abbrev pub float_of : F → Option F → F
  float_of d none = d
  float_of d (some v) = v

  -- What a result holds, by the last values of the three metrics.
  record Holds (nil : F) (a b c : Option F) (r : ScrapeResult F) : Type 0 where
    running : r.running_reqs ≡ int_of (pos 0) a
    waiting : r.waiting_reqs ≡ int_of (pos 0) b
    cache : r.kv_cache_pct ≡ float_of nil c

  record_metric-Holds :
      (nil : F) (x y z : String) (m : String × F) (a b c : Option F) (r : ScrapeResult F)
      → (x == y) ≡ false
      → (x == z) ≡ false
      → (y == z) ≡ false
      → Holds nil a b c r
      → Holds nil
          (value_of x (some m) a)
          (value_of y (some m) b)
          (value_of z (some m) c)
          (record_metric parse_float to_int x y z m r)
  unfolding record_metric
  record_metric-Holds nil x y z (n, v) a b c r p q s h =
      let running = h.running in
      let waiting = h.waiting in
      let cache = h.cache in
      record {
        running = ground (
          arith,
          text_iff n x,
          text_iff n y,
          text_iff n z,
          text_iff x y,
          text_iff x z,
          text_iff y z,
        );
        waiting = ground (
          arith,
          text_iff n x,
          text_iff n y,
          text_iff n z,
          text_iff x y,
          text_iff x z,
          text_iff y z,
        );
        cache = ground (
          arith,
          text_iff n x,
          text_iff n y,
          text_iff n z,
          text_iff x y,
          text_iff x z,
          text_iff y z,
        );
      }

  parse_vlml_line-Holds :
      (nil : F) (line : String) (a b c : Option F) (r : ScrapeResult F)
      → Holds nil a b c r
      → let m = metric_of parse_float to_int line in
        Holds nil
          (value_of "vllm:num_requests_running" m a)
          (value_of "vllm:num_requests_waiting" m b)
          (value_of "vllm:gpu_kv_cache_usage_perc" m c)
          (parse_vlml_line parse_float to_int line r)
  unfolding parse_vlml_line
  parse_vlml_line-Holds nil line a b c r h = by_metric (metric_of parse_float to_int line)
    where
      by_metric :
          (m : Option (String × F))
          → Holds nil
              (value_of "vllm:num_requests_running" m a)
              (value_of "vllm:num_requests_waiting" m b)
              (value_of "vllm:gpu_kv_cache_usage_perc" m c)
              (elim m [
                | none ↦ r
                | some x ↦
                    record_metric parse_float to_int "vllm:num_requests_running"
                      "vllm:num_requests_waiting" "vllm:gpu_kv_cache_usage_perc" x r
              ])
      by_metric none = h
      by_metric (some x) = record_metric-Holds nil _ _ _ x a b c r refl refl refl h

  parse_lines-Holds :
      (nil : F) (lines : List String) (a b c : Option F) (r : ScrapeResult F)
      → Holds nil a b c r
      → Holds nil
          (last_value "vllm:num_requests_running" lines a)
          (last_value "vllm:num_requests_waiting" lines b)
          (last_value "vllm:gpu_kv_cache_usage_perc" lines c)
          (parse_lines parse_float to_int vlml lines r)
  unfolding parse_lines last_value
  parse_lines-Holds nil [] a b c r h = h
  parse_lines-Holds nil (line ∷ lines) a b c r h =
      let m = metric_of parse_float to_int line in
      parse_lines-Holds nil lines (value_of "vllm:num_requests_running" m a)
        (value_of "vllm:num_requests_waiting" m b) (value_of "vllm:gpu_kv_cache_usage_perc" m c)
        (parse_vlml_line parse_float to_int line r) (parse_vlml_line-Holds nil line a b c r h)

  -- For the vLLM engine, each figure of a page is the last value under its metric's name, and 0 if
  -- the page has none, in whatever order the lines of the three metrics stand.
  parse_prometheus_metrics-last :
      (nil : F) (lines : List String)
      → let r = parse_prometheus_metrics parse_float to_int nil vlml lines in
        (r.running_reqs ≡ int_of (pos 0) (last_value "vllm:num_requests_running" lines none))
        × (r.waiting_reqs ≡ int_of (pos 0) (last_value "vllm:num_requests_waiting" lines none))
        × (r.kv_cache_pct ≡ float_of nil (last_value "vllm:gpu_kv_cache_usage_perc" lines none))
  unfolding parse_prometheus_metrics
  parse_prometheus_metrics-last nil lines =
      let fresh : ScrapeResult F = record {
        running_reqs = pos 0;
        waiting_reqs = pos 0;
        kv_cache_pct = nil;
        parsed = false;
      } in
      let h =
        parse_lines-Holds nil lines none none none fresh
          (record { running = refl; waiting = refl; cache = refl }) in
      (h.running, h.waiting, h.cache)
