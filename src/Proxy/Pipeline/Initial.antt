-- ===== src/Proxy/Pipeline/Initial.antt =====
-- A server that has just started, and whatever follows (internal/proxy/server.go).
use llm_proxy.Base.{refl, List, [], text_eq, arith}
use llm_proxy.Base.Int.{pos}
use llm_proxy.Base.Floats.{Floats}
use llm_proxy.Config.Types.{Backend}
use llm_proxy.Proxy.Pipeline.{Server, External, build_semaphores}
use llm_proxy.Proxy.Pipeline.Fresh.{build_semaphores-zero}
use llm_proxy.Proxy.Pipeline.Live.{bytes_held, count}
use llm_proxy.Proxy.Pipeline.System.{System, Steps, IsAccounted}
use llm_proxy.Proxy.Pipeline.Kept.{Steps-IsAccounted}

module _ (Fl : Floats) (ext : External Fl) where
  open Fl use {F}

  -- From a server that has just started, over any order in which requests arrive, are refused,
  -- wait for a slot, take it or give up, and end, and the configuration is reloaded: the buffered
  -- bytes are those of the requests that wait or are in progress, and of those that were refused
  -- after their bytes were counted; the active requests are as many as wait or are in progress;
  -- and the semaphore of a backend counts the requests in progress to it that took their slots
  -- since the last reload, and never more than its capacity.
  pub IsAccounted-Steps :
      (backends : List Backend) (s : Server F) {y : System F}
      → Steps Fl ext
          (record {
            server = record s {
              semaphores = build_semaphores backends;
              buffered_bytes = pos 0;
              active_requests = pos 0;
            };
            waiting = [];
            live = [];
            old = [];
            lost = [];
          })
          y
      → IsAccounted y
  unfolding bytes_held count
  IsAccounted-Steps backends s steps = Steps-IsAccounted Fl ext steps (record {
    bytes = refl;
    active = refl;
    slots = λ id sem e.
        let none = build_semaphores-zero backends id sem e in (none, omega (arith, none));
  })
