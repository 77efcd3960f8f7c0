-- ===== src/Proxy/Stream/Intercepted.antt =====
-- `interceptedBody` of internal/proxy/stream.go around `idleTimeoutBody`: what the client, the
-- parser and the debug capture get of a streamed response.
use llm_proxy.Base.{
  ℕ, suc, zero, Bool, true, false, Option, none, some, List, ◌++◌, length, ltb, if◌then◌else◌,
  map_option,
}
use llm_proxy.Base.Int.{ℤ}
use llm_proxy.Base.Time.{Time}
use llm_proxy.Base.Floats.{Floats}
use llm_proxy.Json.{Object}
use llm_proxy.Capture.{CappedBuffer, write}
use llm_proxy.Proxy.Stream.{SseParser}
use llm_proxy.Proxy.Stream.Feed.{feed}
use llm_proxy.Proxy.Stream.Idle.{IdleBody, Taken, read}

pub record InterceptedBody (E F : Type 0) : Type 0 where
  pub body : IdleBody E
  pub parser : SseParser F
  pub tee : Option CappedBuffer
  pub read_err : Option E
  pub close_once : Bool

-- The body that `modifyResponse` puts in place of the backend's.
abbrev pub intercept :
    {E F : Type 0} → IdleBody E → SseParser F → Option CappedBuffer → InterceptedBody E F
intercept body parser tee = record {
  body = body;
  parser = parser;
  tee = tee;
  read_err = none;
  close_once = false;
}

-- What a reader has when it reaches the end: the bytes, the error and the body.
pub record Copied (E F : Type 0) : Type 0 where
  pub sent : List ℕ
  pub err : E
  pub final : InterceptedBody E F

abbrev pub or_kept : {E : Type 0} → Option E → Option E → Option E
or_kept (some e) kept = some e
or_kept none kept = kept

module _ {E : Type 0} (Fl : Floats) (to_int64 : Fl.F → ℤ)
    (unmarshal : List ℕ → Option (Object Fl.F)) where
  -- What `Read` of the intercepted body does with what the idle body's `Read` returned.
  unfoldable pub after_read : Time → Taken E → InterceptedBody E Fl.F → InterceptedBody E Fl.F
  after_read now t b =
      let read_on : InterceptedBody E Fl.F = record b {
        body = t.body;
        read_err = or_kept t.err b.read_err;
      } in
      if ltb 0 (length t.out)
      then record read_on {
        parser = feed Fl to_int64 unmarshal now t.out b.parser;
        tee = map_option (λ tee. (write tee t.out).1) b.tee;
      }
      else read_on

  -- A read's end, or the bytes of a read before what the later ones bring.
  unfoldable pub then_rest :
      Taken E → InterceptedBody E Fl.F → Option (Copied E Fl.F) → Option (Copied E Fl.F)
  then_rest t b' rest = elim t.err [
    | some e ↦ some (record { sent = t.out; err = e; final = b' })
    | none ↦ elim rest [
      | none ↦ none
      | some c ↦ some (record { sent = t.out ++ c.sent; err = c.err; final = c.final })
    ]
  ]

  -- The reader's loop, as httputil.ReverseProxy makes it: at its `k`-th read from the end the time
  -- is `clock k`, its slice has `suc (sizes k)` bytes, and `late k` says whether the idle timer fires
  -- before the next result; `none` when a read blocks or `k` is 0.
  unfoldable pub copy_all :
      E → (ℕ → Bool) → (ℕ → Time) → (ℕ → ℕ) → ℕ → InterceptedBody E Fl.F → Option (Copied E Fl.F)
  unfolding after_read then_rest
  copy_all idle_timeout late clock sizes zero b = none
  copy_all idle_timeout late clock sizes (suc k) b =
      elim (read idle_timeout (late k) (suc (sizes k)) b.body) [
        | none ↦ none
        | some t ↦
            let b' = after_read (clock k) t b in
            then_rest t b' (copy_all idle_timeout late clock sizes k b')
      ]

-- `Close`: whether `onClose` runs, with the last read error, and the body after it.
unfoldable pub close : {E F : Type 0} → InterceptedBody E F → Bool × InterceptedBody E F
close b = if b.close_once then (false, b) else (true, record b { close_once = true })
