-- ===== src/Tests/Pipelines.antt =====
-- Requests from their arrival to their end, and a capture window.
use llm_proxy.Base.{
  ℕ, ◌≡◌, refl, sym, subst, ◌∙◌, ◌<◌, arith, true, false, [], ◌∷◌, none, some, ok, lookup, insert,
  delete,
}
use llm_proxy.Base.Int.{pos}
use llm_proxy.Base.Text.{bytes, trim_space, trim_left, trim_right, is_space, is_blank}
use llm_proxy.Proxy.Body.Translate.{translate_params}
use llm_proxy.Json.{get, put, drop}
use llm_proxy.Config.Types.{Backend}
use llm_proxy.Router.{
  resolve, resolve_at, route_backend, resolution, merge_params, put_all, sampling_keys,
}
use llm_proxy.Config.Lookup.{find_route, find_backend, should_drop_empty_content}
use llm_proxy.Proxy.Defender.{
  check_defenders, defend_loop, check_zero_content, total_bytes, pass, get_last_user_message,
  last_user, get_message_content, apply_zero_content, apply_loop_detected,
}
use llm_proxy.Config.Cascade.{
  get_zero_content_detection, get_loop_detection, over_loop, over_zero_content,
}
use llm_proxy.Proxy.Defender.Loop.{
  check_loop, check_key, maybe_cleanup, cleanup_stale, repeat_entry, composite_key, get_entry,
}
use llm_proxy.Proxy.Body.{check_empty_messages, apply_params}
use llm_proxy.Proxy.Pipeline.{
  External, Request, Server, Forwarded, build_semaphores, fill_semaphores, acquire_semaphore,
  decode, detect_protocol, has_suffix, defender_key,
}
use llm_proxy.Proxy.Pipeline.Start.{
  proxy_request, asked_of, continue, encode_request, prepare, wait_slot, addressed, rewrite_body,
  admit,
}
use llm_proxy.Proxy.Pipeline.Routing.{choose_target, route_request}
use llm_proxy.Proxy.Pipeline.Live.{some_semaphore}
use llm_proxy.Proxy.Pipeline.Finish.{finish_old, responded}
use llm_proxy.Proxy.Pipeline.Reload.{reload}
use llm_proxy.Proxy.Pipeline.Accounts.{Outcome, proxy_request-Outcome}
use llm_proxy.Proxy.Pipeline.System.{
  System, Steps, stay, more, arrives, takes_slot, ends_old, reloads, HasRoom, IsAccounted,
}
use llm_proxy.Proxy.Pipeline.Initial.{IsAccounted-Steps}
use llm_proxy.Tests.Data.{fixed, body, config, upstream}

abbrev pub external : External fixed
external = record {
  sha_hex = λ bytes. "h";
  sprint_length = λ items. 0;
  show = λ n. "n";
  format_hex = λ n. "k";
  to_lower = λ text. text;
  to_int = pos;
  unmarshal = λ raw. some (some body);
  marshal = λ object. some (1 ∷ 2 ∷ 3 ∷ []);
  is_url = λ url. true;
}

abbrev pub request : Request
request = record {
  raw = ok (0x7b ∷ 0x7d ∷ []);
  path = "/v1/chat/completions";
  header = λ name. "";
  protocol = "";
}

abbrev limited : Backend
limited = record upstream { max_concurrency = pos 2 }

abbrev pub server : Server ℕ
server = record {
  version = "1.0";
  build_mode = "debug";
  cfg = config;
  balancer = none;
  detector = [];
  semaphores = build_semaphores (limited ∷ []);
  buffered_bytes = pos 0;
  active_requests = pos 0;
}

proxy_request-Outcome_example :
    Outcome (λ url. true) true server (proxy_request fixed external 0 0 true request server)
proxy_request-Outcome_example = proxy_request-Outcome fixed external 0 0 true request server

program : Unit {0}
unfolding proxy_request prepare wait_slot decode asked_of detect_protocol has_suffix choose_target
    resolve resolve_at find_route route_backend find_backend resolution merge_params put_all
    sampling_keys defender_key check_defenders defend_loop get_zero_content_detection
    check_zero_content get_last_user_message last_user get_message_content apply_zero_content
    get_loop_detection over_loop over_zero_content check_loop get_entry apply_loop_detected
    route_request continue encode_request check_empty_messages should_drop_empty_content addressed
    apply_params rewrite_body admit acquire_semaphore build_semaphores fill_semaphores lookup insert
    delete get put drop bytes trim_space trim_left trim_right is_space is_blank total_bytes pass
    check_key maybe_cleanup cleanup_stale repeat_entry composite_key translate_params
program = tt

abbrev forwarded : Forwarded
forwarded = record {
  backend = upstream;
  lb_group = "";
  lb_aff_key = "";
  streaming = false;
  encoded = 1 ∷ 2 ∷ 3 ∷ [];
}

goes_on : (proxy_request fixed external 0 0 true request server).0 ≡ ok forwarded
unfolding program
goes_on = refl

abbrev admitted : Server ℕ
admitted = (proxy_request fixed external 0 0 true request server).1

abbrev readied : Server ℕ
readied = (prepare fixed external 0 0 request server).1

abbrev arrived : Server ℕ
arrived = (admit fixed external forwarded readied).1

two_slots : lookup "a" arrived.semaphores ≡ some (record { capacity = 2; held = 0 })
unfolding program
two_slots = refl

has_room : HasRoom arrived.semaphores "a"
has_room sem e =
    let same : record { capacity = 2; held = 0 } ≡ sem = some_semaphore (sym two_slots ∙ e) in
    subst (λ sem. sem.held < sem.capacity) same (omega arith)

abbrev idle : System ℕ
idle = record { server = server; waiting = []; live = []; old = []; lost = [] }

abbrev reloaded : Server ℕ
reloaded = reload fixed pos config admitted

ready : prepare fixed external 0 0 request server ≡ (ok forwarded, readied)
unfolding program
ready = refl

counted : admit fixed external forwarded readied ≡ (ok forwarded, arrived)
unfolding program
counted = refl

slot_taken : wait_slot fixed external true forwarded arrived ≡ (ok forwarded, admitted)
unfolding program
slot_taken = refl

abbrev done : System ℕ
done = record {
  server = finish_old 5 forwarded (responded 200 false false) reloaded;
  waiting = [];
  live = [];
  old = [];
  lost = [];
}

-- A request that takes its slot before a reload and whose response ends after it.
steps : Steps fixed external idle done
unfolding program
steps =
    more
      (more
        (more (more stay (arrives idle 0 0 request ready counted)) (
          takes_slot (record idle { server = arrived; waiting = forwarded ∷ [] }) [] forwarded []
            refl has_room slot_taken))
        (reloads (record idle { server = admitted; live = forwarded ∷ [] }) config))
      (ends_old (record idle { server = reloaded; old = forwarded ∷ [] }) [] forwarded [] 5
        (responded 200 false false) refl)

IsAccounted-Steps_example : IsAccounted done
IsAccounted-Steps_example = IsAccounted-Steps fixed external (limited ∷ []) server steps
