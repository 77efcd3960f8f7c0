-- ===== src/Tests/Monitors.antt =====
-- The monitors of a small configuration.
use llm_proxy.Base.{
  ℕ, ◌≡◌, refl, sym, ap, ◌∙◌, ◌*◌, true, false, [], ◌∷◌, Option, none, some, String, In, here,
  there, All, text_eq,
}
use llm_proxy.Base.Int.{pos}
use llm_proxy.Config.Types.{Config, Backend, GroupConfig}
use llm_proxy.Config.Lookup.{group_backends}
use llm_proxy.Config.Cascade.{get_recovery, get_alive_config}
use llm_proxy.Balancer.State.{BackendState, should_retry}
use llm_proxy.Balancer.Group.{Balancer, find_state, is_backend_healthy}
use llm_proxy.Balancer.Selectors.{find_by_id, sticky}
use llm_proxy.Balancer.Monitor.{Monitor, start_monitoring}
use llm_proxy.Balancer.Monitor.Coverage.{IsUnambiguous}
use llm_proxy.Balancer.Probes.{Ask, Answer, tick}
use llm_proxy.Balancer.Probes.Answering.{IsKnown, start_monitoring-answering}
use llm_proxy.Tests.Data.{config, upstream, settings, selector, backend_with, second}

abbrev gpu : Backend
gpu = record upstream { group = "gpus" }

abbrev watched_config : Config ℕ
watched_config = record config { backends = gpu ∷ []; groups = ("gpus", settings) ∷ [] }

abbrev no_page : String → Option String
no_page url = none

abbrev no_float : String → Option ℕ
no_float s = none

abbrev down : BackendState ℕ
down = record (backend_with "a" false 0) { unhealthy_since = second }

abbrev fleet : Balancer ℕ
fleet =
    record { name = "gpus"; cfg = settings; selector = sticky selector; states = down ∷ [] } ∷ []

the_backend : (b : Backend) → In b (gpu ∷ []) → b ≡ gpu
the_backend b (here e) = sym e
the_backend b (there i) = elim i [ ]

the_group :
    (name : String) (g : GroupConfig ℕ)
    → In {A = String × GroupConfig ℕ} (name, g) (("gpus", settings) ∷ [])
    → g ≡ settings
the_group name g (here e) = sym (ap (λ (p : String × GroupConfig ℕ). p.1) e)
the_group name g (there i) = elim i [ ]

unambiguous : IsUnambiguous watched_config
unambiguous = record {
  one_backend = λ a b i k e. the_backend a i ∙ sym (the_backend b k);
  one_group = λ name g h i k. the_group name g i ∙ sym (the_group name h k);
}

grouped : In gpu (group_backends watched_config "gpus")
unfolding group_backends
grouped = here refl

down_found : find_state fleet "a" ≡ some down
unfolding find_state find_by_id
down_found = refl

retried : should_retry (40 * second) (pos 30) down ≡ true
unfolding should_retry
retried = refl

abbrev joined : String → String → Option String
joined base path = some path

abbrev answering : Ask → Option Answer
answering a = some (record { status = 200; body = some [] })

known : All IsKnown (get_alive_config settings).probes
unfolding get_alive_config
known = tt

start_monitoring-answering_example :
    (m : Monitor) × In m (start_monitoring watched_config no_page)
    × (is_backend_healthy (tick joined answering no_float pos 0 (40 * second) (m, fleet)).1 "a"
        ≡ true)
unfolding get_recovery
start_monitoring-answering_example =
    start_monitoring-answering joined answering [] (λ a. refl) no_float pos 0 watched_config no_page
      "gpus" settings gpu (40 * second) fleet down unambiguous (here refl) grouped known down_found
      retried
