-- ===== src/Proxy/Pipeline/Kept.antt =====
-- Every step of the server keeps its accounts right (internal/proxy/server.go).
use llm_proxy.Base.{
  ℕ, true, false, ◌≡◌, sym, ap, ◌∙◌, subst, List, [], ◌∷◌, ◌++◌, some, lookup, length,
  length-append, text_eq, Result, arith,
}
use llm_proxy.Base.Int.{pos, ◌+ℤ◌}
use llm_proxy.Base.Time.{Time}
use llm_proxy.Base.Floats.{Floats}
use llm_proxy.Proxy.Pipeline.{Server, Request, Stop, Forwarded, External, acquire_semaphore}
use llm_proxy.Config.Types.{Config}
use llm_proxy.Proxy.Pipeline.Finish.{End, finish, finish_old}
use llm_proxy.Proxy.Pipeline.Start.{prepare, give_up}
use llm_proxy.Proxy.Pipeline.Reload.{reload}
use llm_proxy.Proxy.Pipeline.Fresh.{build_semaphores-zero}
use llm_proxy.Proxy.Pipeline.Accounts.{Holds, Leaks, prepare-Holds}
use llm_proxy.Proxy.Pipeline.Live.{bytes_held, count, bytes_held-append, finish-lem, finish_old-lem}
use llm_proxy.Proxy.Pipeline.System.{
  System, HasRoom, IsAccounted, Step, refuses, strands, arrives, takes_slot, gives_up, ends,
  gives_up_old, ends_old, reloads, Steps, stay, more,
}
use llm_proxy.Proxy.Pipeline.Taken.{
  AreTaken, raised, lowered, without-lem, acquire_semaphore-AreTaken, release-AreTaken, admit-ok,
  admit-err, wait_slot-ok, wait_slot-err,
}

module _ (Fl : Floats) (ext : External Fl) where
  open Fl use {F}

  refused-IsAccounted :
      (y : System F) (t : Server F)
      → Holds y.server t
      → IsAccounted y
      → IsAccounted (record y { server = t })
  refused-IsAccounted y t (h, a, m) k = record {
    bytes = h ∙ k.bytes;
    active = a ∙ k.active;
    slots = λ id sem e. k.slots id sem (ap (lookup id) (sym m) ∙ e);
  }

  leaked-IsAccounted :
      (y : System F) (f : Forwarded) (t : Server F)
      → Leaks f y.server t
      → IsAccounted y
      → IsAccounted (record y { server = t; lost = f ∷ y.lost })
  unfolding bytes_held
  leaked-IsAccounted y f t (h, a, m) k = record {
    bytes = h ∙ raised _ (length f.encoded) _ k.bytes (omega arith);
    active = a ∙ k.active;
    slots = λ id sem e. k.slots id sem (ap (lookup id) (sym m) ∙ e);
  }

  arrives-IsAccounted :
      (y : System F) (f : Forwarded) (t : Server F)
      → (t.buffered_bytes ≡ y.server.buffered_bytes +ℤ pos (length f.encoded))
        × (t.active_requests ≡ y.server.active_requests +ℤ pos 1)
        × (t.semaphores ≡ y.server.semaphores)
      → IsAccounted y
      → IsAccounted (record y { server = t; waiting = f ∷ y.waiting })
  unfolding bytes_held
  arrives-IsAccounted y f t (h, a, m) k = record {
    bytes = h ∙ raised _ (length f.encoded) _ k.bytes (omega arith);
    active = a ∙ raised _ 1 _ k.active (omega arith);
    slots = λ id sem e. k.slots id sem (ap (lookup id) (sym m) ∙ e);
  }

  takes_slot-IsAccounted :
      (y : System F) (before : List Forwarded) (f : Forwarded) (later : List Forwarded)
      (t : Server F)
      → y.waiting ≡ before ++ f ∷ later
      → HasRoom y.server.semaphores f.backend.id
      → (t.buffered_bytes ≡ y.server.buffered_bytes)
        × (t.active_requests ≡ y.server.active_requests)
        × (acquire_semaphore true f.backend.id y.server.semaphores ≡ some t.semaphores)
      → IsAccounted y
      → IsAccounted (record y { server = t; waiting = before ++ later; live = f ∷ y.live })
  unfolding bytes_held
  takes_slot-IsAccounted y before f later t w room (h, a, q) k =
      let (all, one) = without-lem y.waiting before f later w in
      record {
        bytes = h ∙ k.bytes ∙ ap pos (omega (arith, all));
        active = a ∙ k.active ∙ ap pos (omega (arith, one));
        slots = acquire_semaphore-AreTaken y.server.semaphores t.semaphores y.live f q room k.slots;
      }

  gives_up-IsAccounted :
      (y : System F) (before : List Forwarded) (f : Forwarded) (later : List Forwarded)
      → y.waiting ≡ before ++ f ∷ later
      → IsAccounted y
      → IsAccounted (record y {
        server = give_up Fl ext y.server;
        waiting = before ++ later;
        lost = f ∷ y.lost;
      })
  unfolding bytes_held give_up
  gives_up-IsAccounted y before f later w k =
      let (all, one) = without-lem y.waiting before f later w in
      record {
        bytes = k.bytes ∙ ap pos (omega (arith, all));
        active = lowered _ 1 _ k.active (omega (arith, one));
        slots = k.slots;
      }

  gives_up_old-IsAccounted :
      (y : System F) (before : List Forwarded) (f : Forwarded) (later : List Forwarded)
      → y.old ≡ before ++ f ∷ later
      → IsAccounted y
      → IsAccounted
          (record y { server = give_up Fl ext y.server; old = before ++ later; lost = f ∷ y.lost })
  unfolding bytes_held give_up
  gives_up_old-IsAccounted y before f later w k =
      let (all, one) = without-lem y.old before f later w in
      record {
        bytes = k.bytes ∙ ap pos (omega (arith, all));
        active = lowered _ 1 _ k.active (omega (arith, one));
        slots = k.slots;
      }

  ends-IsAccounted :
      (y : System F) (before : List Forwarded) (f : Forwarded) (later : List Forwarded) (now : Time)
      (end : End)
      → y.live ≡ before ++ f ∷ later
      → IsAccounted y
      → IsAccounted (record y { server = finish now f end y.server; live = before ++ later })
  ends-IsAccounted y before f later now end w k =
      let (h, a, m) = finish-lem now f end y.server in
      let (all, one) = without-lem y.live before f later w in
      let free =
        release-AreTaken y.server.semaphores before f later
          (subst (AreTaken y.server.semaphores) w k.slots) in
      record {
        bytes = h ∙ lowered _ (length f.encoded) _ k.bytes (omega (arith, all));
        active = a ∙ lowered _ 1 _ k.active (omega (arith, one));
        slots = λ id sem e. free id sem (ap (lookup id) (sym m) ∙ e);
      }

  ends_old-IsAccounted :
      (y : System F) (before : List Forwarded) (f : Forwarded) (later : List Forwarded) (now : Time)
      (end : End)
      → y.old ≡ before ++ f ∷ later
      → IsAccounted y
      → IsAccounted (record y { server = finish_old now f end y.server; old = before ++ later })
  ends_old-IsAccounted y before f later now end w k =
      let (h, a, m) = finish_old-lem now f end y.server in
      let (all, one) = without-lem y.old before f later w in
      record {
        bytes = h ∙ lowered _ (length f.encoded) _ k.bytes (omega (arith, all));
        active = a ∙ lowered _ 1 _ k.active (omega (arith, one));
        slots = λ id sem e. k.slots id sem (ap (lookup id) (sym m) ∙ e);
      }

  reloads-IsAccounted :
      (y : System F) (cfg : Config F)
      → IsAccounted y
      → IsAccounted (record y {
        server = reload Fl ext.to_int cfg y.server;
        waiting = [];
        live = [];
        old = y.waiting ++ (y.live ++ y.old);
      })
  unfolding reload bytes_held count
  reloads-IsAccounted y cfg k =
      let sum = bytes_held-append y.waiting (y.live ++ y.old) in
      let sum' = bytes_held-append y.live y.old in
      let len = length-append y.waiting (y.live ++ y.old) in
      let len' = length-append y.live y.old in
      record {
        bytes = k.bytes ∙ ap pos (omega (arith, sum, sum'));
        active = k.active ∙ ap pos (omega (arith, len, len'));
        slots = λ id sem e.
            let none = build_semaphores-zero cfg.backends id sem e in (none, omega (arith, none));
      }

  prepared :
      (y : System F) (now : Time) (now_unix : ℕ) (r : Request) {out : Result Stop Forwarded}
      {t : Server F}
      → prepare Fl ext now now_unix r y.server ≡ (out, t)
      → Holds y.server t
  prepared y now now_unix r e =
      subst (λ p. Holds y.server p.1) e (prepare-Holds Fl ext now now_unix r y.server)

  Step-IsAccounted : {x y : System F} → Step Fl ext x y → IsAccounted x → IsAccounted y
  Step-IsAccounted (refuses {t = t} y now now_unix r e) k =
      refused-IsAccounted y t (prepared y now now_unix r e) k
  Step-IsAccounted (strands {t = t} {u = u} {f = f} y now now_unix r e d) k =
      leaked-IsAccounted (record y { server = t }) f u (admit-err Fl ext f t d)
        (refused-IsAccounted y t (prepared y now now_unix r e) k)
  Step-IsAccounted (arrives {t = t} {u = u} {f = f} y now now_unix r e d) k =
      arrives-IsAccounted (record y { server = t }) f u (admit-ok Fl ext f t d)
        (refused-IsAccounted y t (prepared y now now_unix r e) k)
  Step-IsAccounted (takes_slot {t = t} y before f later w room e) k =
      takes_slot-IsAccounted y before f later t w room (wait_slot-ok Fl ext true f y.server e) k
  Step-IsAccounted (gives_up {t = t} y before f later w e) k =
      subst
        (λ t. IsAccounted (record y { server = t; waiting = before ++ later; lost = f ∷ y.lost }))
        (sym (wait_slot-err Fl ext false f y.server e)) (gives_up-IsAccounted y before f later w k)
  Step-IsAccounted (ends y before f later now end w) k =
      ends-IsAccounted y before f later now end w k
  Step-IsAccounted (gives_up_old y before f later w) k =
      gives_up_old-IsAccounted y before f later w k
  Step-IsAccounted (ends_old y before f later now end w) k =
      ends_old-IsAccounted y before f later now end w k
  Step-IsAccounted (reloads y cfg) k = reloads-IsAccounted y cfg k

  pub Steps-IsAccounted : {x y : System F} → Steps Fl ext x y → IsAccounted x → IsAccounted y
  Steps-IsAccounted stay h = h
  Steps-IsAccounted (more before next) h = Step-IsAccounted next (Steps-IsAccounted before h)
