-- ===== src/Config/Cascade/Positive.antt =====
-- What the cascades guarantee whatever a configuration sets.
use llm_proxy.Base.{
  ◌≡◌, refl, true, false, Option, none, some, String, ◌==◌, text_eq, text_iff, arith,
}
use llm_proxy.Base.Int.{ℤ, is_pos}
use llm_proxy.Config.Types.{Config, Route, LoopDetectionConfig, DefenderConfig}
use llm_proxy.Config.Cascade.{
  over_int, over_text, over_loop, get_loop_detection, default_loop, route_defenders,
}

-- Settings with which the loop detector can work.
pub record IsUsable (l : LoopDetectionConfig) : Type 0 where
  pub threshold : is_pos l.consecutive_threshold ≡ true
  pub window : is_pos l.window_seconds ≡ true
  pub escalate : is_pos l.escalate_after ≡ true
  pub action : (l.action == "") ≡ false
  pub escalate_action : (l.escalate_action == "") ≡ false

pub over_int-positive : (n d : ℤ) → is_pos d ≡ true → is_pos (over_int n d) ≡ true
over_int-positive n d h = ground arith

over_text-nonempty : (s d : String) → (d == "") ≡ false → (over_text s d == "") ≡ false
over_text-nonempty s d h = ground (arith, text_iff s "")

over_loop-IsUsable :
    (n : Option LoopDetectionConfig) (l : LoopDetectionConfig)
    → IsUsable l
    → IsUsable (over_loop n l)
unfolding over_loop
over_loop-IsUsable none l h = h
over_loop-IsUsable (some n) l h = record {
  threshold = over_int-positive n.consecutive_threshold l.consecutive_threshold h.threshold;
  window = over_int-positive n.window_seconds l.window_seconds h.window;
  escalate = over_int-positive n.escalate_after l.escalate_after h.escalate;
  action = over_text-nonempty n.action l.action h.action;
  escalate_action = over_text-nonempty n.escalate_action l.escalate_action h.escalate_action;
}

module _ {F : Type 0} where
  -- Whatever the global block and the route set, the loop detector's threshold, window and
  -- escalation are positive and its two actions are not empty.
  pub get_loop_detection-IsUsable :
      (c : Config F) (r : Option (Route F)) → IsUsable (get_loop_detection c r)
  unfolding get_loop_detection
  get_loop_detection-IsUsable c r = layered (route_defenders r)
    where
      base : IsUsable (over_loop c.defenders.loop_detection default_loop)
      base = over_loop-IsUsable c.defenders.loop_detection default_loop (record {
        threshold = refl;
        window = refl;
        escalate = refl;
        action = refl;
        escalate_action = refl;
      })

      layered :
          (o : Option DefenderConfig)
          → IsUsable (elim o [
            | none ↦ over_loop c.defenders.loop_detection default_loop
            | some d ↦
                over_loop d.loop_detection (over_loop c.defenders.loop_detection default_loop)
          ])
      layered none = base
      layered (some d) =
          over_loop-IsUsable d.loop_detection (over_loop c.defenders.loop_detection default_loop)
            base
