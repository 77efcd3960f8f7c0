-- ===== src/Proxy/Stream/Idle.antt =====
-- `idleTimeoutBody` of internal/proxy/stream.go. The channel that its goroutine fills is the list
-- `incoming`; `late` says that the timer fires before the next result. `E` is the type of errors.
use llm_proxy.Base.{
  ℕ, Bool, true, false, Option, none, some, List, [], ◌∷◌, ◌++◌, length, take, drop, ltb, ◌==◌,
  number_eq, if◌then◌else◌,
}

-- `readResult`: the bytes of one read, and its error.
abbrev pub ReadResult : Type 0 → Type 0
ReadResult E = List ℕ × Option E

pub record IdleBody (E : Type 0) : Type 0 where
  pub incoming : List (ReadResult E)
  pub pending : List ℕ
  pub pend_err : Option E
  pub closed : Bool

-- A call of `Read` that returns: the bytes that it copies out, its error, and the body after it.
pub record Taken (E : Type 0) : Type 0 where
  pub out : List ℕ
  pub err : Option E
  pub body : IdleBody E

module _ {E : Type 0} where
  -- What the goroutine sends of the reads of the backend's body: all but the empty ones, up to the
  -- first error.
  unfoldable pub read_loop : List (ReadResult E) → List (ReadResult E)
  read_loop [] = []
  read_loop ((buf, some e) ∷ reads) = (buf, some e) ∷ []
  read_loop (([], none) ∷ reads) = read_loop reads
  read_loop ((c ∷ cs, none) ∷ reads) = (c ∷ cs, none) ∷ read_loop reads

  abbrev pub new_idle_timeout_body : List (ReadResult E) → IdleBody E
  new_idle_timeout_body reads = record {
    incoming = read_loop reads;
    pending = [];
    pend_err = none;
    closed = false;
  }

  -- A result out of the channel, of which `size` bytes fit.
  unfoldable pub deliver : ℕ → ReadResult E → IdleBody E → Taken E
  deliver size (buf, err) b =
      if ltb size (length buf)
      then record {
        out = take size buf;
        err = none;
        body = record b { pending = drop size buf; pend_err = err };
      }
      else record { out = buf; err = err; body = b }

  -- The leftover bytes of an earlier result, of which `size` fit.
  unfoldable pub drain : ℕ → IdleBody E → Taken E
  drain size b =
      if length (drop size b.pending) == 0
      then record {
        out = take size b.pending;
        err = b.pend_err;
        body = record b { pending = drop size b.pending; pend_err = none };
      }
      else record {
        out = take size b.pending;
        err = none;
        body = record b { pending = drop size b.pending };
      }

  unfoldable pub receive : ℕ → List (ReadResult E) → IdleBody E → Option (Taken E)
  unfolding deliver
  receive size [] b = none
  receive size (r ∷ rs) b = some (deliver size r (record b { incoming = rs }))

  -- `Read` into a slice of `size` bytes; `none` when it blocks for ever, on a channel that nothing
  -- is sent to any more.
  unfoldable pub read : E → Bool → ℕ → IdleBody E → Option (Taken E)
  unfolding drain receive
  read idle_timeout late size b =
      if ltb 0 (length b.pending)
      then some (drain size b)
      else if late
      then some (record { out = []; err = some idle_timeout; body = record b { closed = true } })
      else receive size b.incoming b

unfoldable pub prepend : {E : Type 0} → List ℕ → Option (List ℕ × E) → Option (List ℕ × E)
prepend xs none = none
prepend xs (some (bs, e)) = some (xs ++ bs, e)

-- What reads of a body come to: the bytes up to the first error, and that error.
unfoldable pub until_error : {E : Type 0} → List (ReadResult E) → Option (List ℕ × E)
unfolding prepend
until_error [] = none
until_error ((buf, some e) ∷ reads) = some (buf, e)
until_error ((buf, none) ∷ reads) = prepend buf (until_error reads)
