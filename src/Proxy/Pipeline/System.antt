-- ===== src/Proxy/Pipeline/System.antt =====
-- The server with its requests, over any order of their steps and of reloads
-- (internal/proxy/server.go). What a request does before it waits for its slot is one step, which
-- reads the map of semaphores last; a slot is taken when the send on the channel goes through.
use llm_proxy.Base.{
  ℕ, ◌+◌, ◌<◌, ◌≤◌, true, false, ◌≡◌, List, [], ◌∷◌, ◌++◌, some, String, Map, lookup, length,
  text_eq, ok, err,
}
use llm_proxy.Base.Int.{pos}
use llm_proxy.Base.Time.{Time}
use llm_proxy.Base.Floats.{Floats}
use llm_proxy.Proxy.Pipeline.{Server, Semaphore, Request, Stop, Forwarded, External}
use llm_proxy.Proxy.Pipeline.Start.{prepare, admit, give_up, wait_slot}
use llm_proxy.Config.Types.{Config}
use llm_proxy.Proxy.Pipeline.Finish.{End, finish, finish_old}
use llm_proxy.Proxy.Pipeline.Reload.{reload}
use llm_proxy.Proxy.Pipeline.Live.{bytes_held, count}

-- The server and its requests: those that wait for a slot and those that the reverse proxy has, since
-- the last reload; those from before it; and those that were refused after their bytes were counted.
pub record System (F : Type 0) : Type 0 where
  pub server : Server F
  pub waiting : List Forwarded
  pub live : List Forwarded
  pub old : List Forwarded
  pub lost : List Forwarded

abbrev pub HasRoom : Map Semaphore → String → Type 0
HasRoom sems id = (sem : Semaphore) → lookup id sems ≡ some sem → sem.held < sem.capacity

-- The accounts are right, and no backend has more requests since the last reload than its semaphore
-- allows.
pub record IsAccounted {F : Type 0} (y : System F) : Type 0 where
  pub bytes :
      y.server.buffered_bytes
      ≡ pos (bytes_held y.waiting + bytes_held y.live + bytes_held y.old + bytes_held y.lost)
  pub active : y.server.active_requests ≡ pos (length y.waiting + length y.live + length y.old)
  pub slots :
      (id : String) (sem : Semaphore)
      → lookup id y.server.semaphores ≡ some sem
      → (sem.held ≡ count id y.live) × (sem.held ≤ sem.capacity)

module _ (Fl : Floats) (ext : External Fl) where
  open Fl use {F}

  pub data Step : System F → System F → Type 0 where
    refuses :
        {t : Server F} {stop : Stop} (y : System F) (now : Time) (now_unix : ℕ) (r : Request)
        → prepare Fl ext now now_unix r y.server ≡ (err stop, t)
        → Step y (record y { server = t })
    strands :
        {t u : Server F} {f : Forwarded} {stop : Stop} (y : System F) (now : Time) (now_unix : ℕ)
        (r : Request)
        → prepare Fl ext now now_unix r y.server ≡ (ok f, t)
        → admit Fl ext f t ≡ (err stop, u)
        → Step y (record y { server = u; lost = f ∷ y.lost })
    arrives :
        {t u : Server F} {f g : Forwarded} (y : System F) (now : Time) (now_unix : ℕ) (r : Request)
        → prepare Fl ext now now_unix r y.server ≡ (ok f, t)
        → admit Fl ext f t ≡ (ok g, u)
        → Step y (record y { server = u; waiting = f ∷ y.waiting })
    takes_slot :
        {t : Server F} {g : Forwarded} (y : System F) (before : List Forwarded) (f : Forwarded)
        (later : List Forwarded)
        → y.waiting ≡ before ++ f ∷ later
        → HasRoom y.server.semaphores f.backend.id
        → wait_slot Fl ext true f y.server ≡ (ok g, t)
        → Step y (record y { server = t; waiting = before ++ later; live = f ∷ y.live })
    gives_up :
        {t : Server F} {stop : Stop} (y : System F) (before : List Forwarded) (f : Forwarded)
        (later : List Forwarded)
        → y.waiting ≡ before ++ f ∷ later
        → wait_slot Fl ext false f y.server ≡ (err stop, t)
        → Step y (record y { server = t; waiting = before ++ later; lost = f ∷ y.lost })
    ends :
        (y : System F) (before : List Forwarded) (f : Forwarded) (later : List Forwarded)
        (now : Time) (end : End)
        → y.live ≡ before ++ f ∷ later
        → Step y (record y { server = finish now f end y.server; live = before ++ later })
    gives_up_old :
        (y : System F) (before : List Forwarded) (f : Forwarded) (later : List Forwarded)
        → y.old ≡ before ++ f ∷ later
        → Step y (record y {
          server = give_up Fl ext y.server;
          old = before ++ later;
          lost = f ∷ y.lost;
        })
    ends_old :
        (y : System F) (before : List Forwarded) (f : Forwarded) (later : List Forwarded)
        (now : Time) (end : End)
        → y.old ≡ before ++ f ∷ later
        → Step y (record y { server = finish_old now f end y.server; old = before ++ later })
    reloads :
        (y : System F) (cfg : Config F)
        → Step y (record y {
          server = reload Fl ext.to_int cfg y.server;
          waiting = [];
          live = [];
          old = y.waiting ++ (y.live ++ y.old);
        })

  pub data Steps : System F → System F → Type 0 where
    stay : {y : System F} → Steps y y
    more : {x y z : System F} → Steps x y → Step y z → Steps x z
