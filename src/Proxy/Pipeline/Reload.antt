-- ===== src/Proxy/Pipeline/Reload.antt =====
-- A new server and its reload (`New` and `Reload` of internal/proxy/server.go). The reload's writes
-- are one step here. The transport, the journal, the capture and log lines are left out, and so is
-- the end of the old balancer's monitors.
use llm_proxy.Base.{String, [], Option, none, length, ltb, if◌then◌else◌}
use llm_proxy.Base.Int.{ℤ, pos}
use llm_proxy.Base.Floats.{Floats}
use llm_proxy.Config.Types.{Config}
use llm_proxy.Balancer.Group.{Balancer}
use llm_proxy.Balancer.Monitor.{new_groups}
use llm_proxy.Proxy.Pipeline.{Server, build_semaphores}

module _ (fl : Floats) (to_int : fl.F → ℤ) where
  open fl use {F}

  -- The balancer that a server has under a configuration.
  unfoldable pub balancer_of : Config F → Option (Balancer F)
  unfolding new_groups
  balancer_of cfg = if ltb 0 (length cfg.groups) then new_groups fl to_int cfg cfg.groups else none

  unfoldable pub new_server : String → String → Config F → Server F
  unfolding balancer_of build_semaphores
  new_server version build_mode cfg = record {
    version = version;
    build_mode = build_mode;
    cfg = cfg;
    balancer = balancer_of cfg;
    detector = [];
    semaphores = build_semaphores cfg.backends;
    buffered_bytes = pos 0;
    active_requests = pos 0;
  }

  unfoldable pub reload : Config F → Server F → Server F
  unfolding balancer_of build_semaphores
  reload cfg s = record s {
    cfg = cfg;
    balancer = balancer_of cfg;
    detector = [];
    semaphores = build_semaphores cfg.backends;
  }
