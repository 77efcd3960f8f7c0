-- ===== src/Tests/Defenders.antt =====
-- The loop detector and the injected message on small inputs.
use llm_proxy.Base.{
  ◌*◌, ◌+◌, ◌≡◌, refl, true, false, List, [], ◌∷◌, none, String, leb, All, lookup, insert, delete,
}
use llm_proxy.Base.Int.{pos}
use llm_proxy.Base.Time.{Time}
use llm_proxy.Base.Text.{bytes}
use llm_proxy.Config.Types.{LoopDetectionConfig}
use llm_proxy.Proxy.Defender.Loop.{
  Detector, check_key, maybe_cleanup, cleanup_stale, repeat_entry, check_loop, composite_key,
}
use llm_proxy.Proxy.Defender.Escalation.{verdicts, verdicts-never_escalated}
use llm_proxy.Proxy.Defender.Repeats.{
  Check, again, other, again_count, checks, detected-after_repeats,
}
use llm_proxy.Tests.Data.{second}

program : Unit {0}
unfolding check_key maybe_cleanup cleanup_stale repeat_entry check_loop composite_key verdicts
    checks lookup insert delete bytes
program = tt

-- The default settings.
abbrev settings : LoopDetectionConfig
settings = record {
  enabled = true;
  consecutive_threshold = pos 3;
  window_seconds = pos 60;
  action = "inject_forcing_message";
  escalate_after = pos 2;
  escalate_action = "refuse_429";
}

abbrev no_entries : Detector
no_entries = []

absent : lookup "x" no_entries ≡ none
unfolding program
absent = refl

abbrev between : List Check
between = other "y" "g" settings second ∷ again second ∷ other "y" "g" settings second ∷ []

detected-after_repeats_example :
    (check_key "x"
      (2 * second)
      "h"
      settings
      (checks "x" "h" settings between (check_key "x" second "h" settings no_entries).1)).0.detected
    ≡ leb 3 (again_count between + 2)
detected-after_repeats_example =
    detected-after_repeats settings second (2 * second) 3 "x" "h" between no_entries refl absent
      ((refl, refl), (refl, ((refl, refl), tt))) refl

abbrev insistent : List (Time × String × String)
insistent =
    (1, "k", "h")
    ∷ (2, "k", "h")
    ∷ (3, "k", "h")
    ∷ (4, "k", "h")
    ∷ (5, "k", "h")
    ∷ (6, "k", "h")
    ∷ []

verdicts-never_escalated_example :
    All (λ v. v.escalated ≡ false) (verdicts (λ bs. "digest") settings insistent [])
verdicts-never_escalated_example =
    verdicts-never_escalated (λ bs. "digest") settings 2 0 refl refl insistent
