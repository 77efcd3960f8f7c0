-- ===== src/Proxy/Stream/Remaining.antt =====
-- How a read of `idleTimeoutBody` (internal/proxy/stream.go) takes from what is still to come.
use llm_proxy.Base.{
  ℕ, suc, ◌+◌, ◌<◌, ◌≤◌, Bool, true, false, ◌≡◌, refl, ap, sym, ◌∙◌, Option, none, some, List, [],
  ◌∷◌, ◌++◌, length, length-append, take, drop, take-append-drop, take_of_length-le,
  drop_of_length-le, length-drop, ltb, ◌==◌, number_eq, inl, inr, ◌⊎◌, subst, Bool-cases, arith,
  append_assoc,
}
use llm_proxy.Proxy.Stream.Idle.{
  IdleBody, ReadResult, Taken, read, receive, deliver, drain, read_loop, until_error, prepend,
}

-- The bytes and the error that are still to come out of a body.
pub data Remains {E : Type 0} (bs : List ℕ) (e : E) : IdleBody E → Type 0 where
  waiting :
      {rs : List (ReadResult E)} {err : Option E} {closed : Bool}
      → until_error rs ≡ some (bs, e)
      → Remains bs e (record { incoming = rs; pending = []; pend_err = err; closed = closed })
  holding :
      {rs : List (ReadResult E)} {c : ℕ} {cs : List ℕ} {err : Option E} {closed : Bool}
      → until_error ((c ∷ cs, err) ∷ rs) ≡ some (bs, e)
      → Remains bs e (record { incoming = rs; pending = c ∷ cs; pend_err = err; closed = closed })

-- A read gives the last bytes and the error, or brings the end nearer.
pub data Advance {E : Type 0} (bs : List ℕ) (e : E) (left : ℕ) : Taken E → Type 0 where
  ends : {b : IdleBody E} → Advance bs e left (record { out = bs; err = some e; body = b })
  goes :
      {out more : List ℕ} {b : IdleBody E}
      → bs ≡ out ++ more
      → Remains more e b
      → length more + length b.incoming < left
      → Advance bs e left (record { out = out; err = none; body = b })

module _ {E : Type 0} where
  prepend-append :
      (xs ys : List ℕ) (o : Option (List ℕ × E)) → prepend (xs ++ ys) o ≡ prepend xs (prepend ys o)
  unfolding prepend
  prepend-append xs ys none = refl
  prepend-append xs ys (some (bs, e)) = ap (λ zs. some (zs, e)) (append_assoc xs ys bs)

  -- How a segment of the stream divides.
  until_error-append :
      (xs ys : List ℕ) (err : Option E) (rs : List (ReadResult E))
      → until_error ((xs ++ ys, err) ∷ rs) ≡ prepend xs (until_error ((ys, err) ∷ rs))
  unfolding until_error
  until_error-append xs ys (some e) rs = refl
  until_error-append xs ys none rs = prepend-append xs ys (until_error rs)

  prepend-nil : (o : Option (List ℕ × E)) → prepend [] o ≡ o
  unfolding prepend
  prepend-nil none = refl
  prepend-nil (some (bs, e)) = refl

  prepend_some :
      (xs bs : List ℕ) (e : E) (o : Option (List ℕ × E))
      → prepend xs o ≡ some (bs, e)
      → (more : List ℕ) × (bs ≡ xs ++ more) × (o ≡ some (more, e))
  unfolding prepend
  prepend_some xs bs e none h = absurd cc
  prepend_some xs bs e (some (more, f)) h =
      let same : ◌≡◌ {A = List ℕ × E} (xs ++ more, f) (bs, e) = ground arith in
      (more, sym (ap (λ p. p.0) same), ap (λ p. some (more, p.1)) same)

  -- Bytes that are kept for the next read.
  kept :
      (pending : List ℕ) (err : Option E) (rs : List (ReadResult E)) {bs : List ℕ} {e : E}
      {closed : Bool}
      → 0 < length pending
      → until_error ((pending, err) ∷ rs) ≡ some (bs, e)
      → Remains bs e (record { incoming = rs; pending = pending; pend_err = err; closed = closed })
  kept [] err rs h u = absurd (omega (arith, h))
  kept (c ∷ cs) err rs h u = holding u

  -- A segment that does not fit: its head is copied out.
  split_off :
      (size : ℕ) (buf : List ℕ) (err : Option E) (rs : List (ReadResult E)) {bs : List ℕ} {e : E}
      → until_error ((buf, err) ∷ rs) ≡ some (bs, e)
      → (more : List ℕ) × (bs ≡ take size buf ++ more)
        × (until_error ((drop size buf, err) ∷ rs) ≡ some (more, e))
  split_off size buf err rs {bs = bs} {e = e} u =
      prepend_some (take size buf) bs e (until_error ((drop size buf, err) ∷ rs)) (
        sym (until_error-append (take size buf) (drop size buf) err rs)
        ∙ ap (λ xs. until_error ((xs, err) ∷ rs)) (take-append-drop size buf)
        ∙ u)

  -- A segment that fits: it ends the stream, or the rest of the stream remains.
  finish_segment :
      (buf : List ℕ) (err : Option E) (rs : List (ReadResult E)) {bs : List ℕ} {e : E} {c : Bool}
      {x : Option E} (left : ℕ)
      → until_error ((buf, err) ∷ rs) ≡ some (bs, e)
      → length bs + length rs < left + length buf
      → Advance bs e left (record {
        out = buf;
        err = err;
        body = record { incoming = rs; pending = []; pend_err = x; closed = c };
      })
  unfolding until_error
  finish_segment buf (some f) rs {bs = bs} {e = e} {c = c} {x = x} left u h =
      let same : ◌≡◌ {A = List ℕ × E} (buf, f) (bs, e) = ground arith in
      subst
        (λ p. Advance p.0 p.1 left (record {
          out = buf;
          err = some f;
          body = record { incoming = rs; pending = []; pend_err = x; closed = c };
        }))
        same ends
  finish_segment buf none rs {bs = bs} {e = e} left u h =
      let (more, eq, u') = prepend_some buf bs e (until_error rs) u in
      let sum = length-append buf more in
      let len : length bs ≡ length (buf ++ more) = ap length eq in
      goes eq (waiting u') (omega (arith, h, len, sum))

  pub deliver-Advance :
      (k : ℕ) (r : ReadResult E) (rs : List (ReadResult E)) (c : Bool) (x : Option E) {bs : List ℕ}
      {e : E}
      → until_error (r ∷ rs) ≡ some (bs, e)
      → Advance bs e
          (length bs + suc (length rs))
          (deliver (suc k) r (record { incoming = rs; pending = []; pend_err = x; closed = c }))
  unfolding deliver
  deliver-Advance k (buf, err) rs c x {bs = bs} u = elim (Bool-cases (ltb (suc k) (length buf))) [
    | inl f ↦
        let (more, eq, u') = split_off (suc k) buf err rs u in
        let rest : 0 < length (drop (suc k) buf) = ground (arith, length-drop (suc k) buf) in
        let sum = length-append (take (suc k) buf) more in
        let len : length bs ≡ length (take (suc k) buf ++ more) = ap length eq in
        rw f (goes eq (kept (drop (suc k) buf) err rs rest u') (omega (arith, len, sum)))
    | inr f ↦ rw f (finish_segment buf err rs (length bs + suc (length rs)) u (omega arith))
  ]

  pub drain-Advance :
      (k : ℕ) (y : ℕ) (ys : List ℕ) (err : Option E) (rs : List (ReadResult E)) (c : Bool)
      {bs : List ℕ} {e : E}
      → until_error ((y ∷ ys, err) ∷ rs) ≡ some (bs, e)
      → Advance bs e
          (length bs + length rs)
          (drain (suc k) (record { incoming = rs; pending = y ∷ ys; pend_err = err; closed = c }))
  unfolding drain
  drain-Advance k y ys err rs c {bs = bs} u =
      let buf = y ∷ ys in
      elim (Bool-cases (length (drop (suc k) buf) == 0)) [
        | inl f ↦
            let fits : length ys ≤ k = ground (arith, length-drop k ys) in
            rw (f, take_of_length-le k ys fits, drop_of_length-le k ys fits)
              (finish_segment buf err rs (length bs + length rs) u (omega arith))
        | inr f ↦
            let (more, eq, u') = split_off (suc k) buf err rs u in
            let rest : 0 < length (drop (suc k) buf) = ground arith in
            let sum = length-append (take (suc k) buf) more in
            let len : length bs ≡ length (take (suc k) buf ++ more) = ap length eq in
            rw f (goes eq (kept (drop (suc k) buf) err rs rest u') (omega (arith, len, sum)))
      ]

  pub read-Advance :
      (idle_timeout : E) (k : ℕ) {b : IdleBody E} {bs : List ℕ} {e : E}
      → Remains bs e b
      → (t : Taken E) × (read idle_timeout false (suc k) b ≡ some t)
        × Advance bs e (length bs + length b.incoming) t
  unfolding read receive until_error
  read-Advance x k (waiting {rs = []} u) = absurd cc
  read-Advance x k {bs = bs} (waiting {rs = r ∷ rs} {err = err} {closed = c} u) =
      (_, refl, deliver-Advance k r rs c err u)
  read-Advance x k (holding {rs = rs} {c = y} {cs = ys} {err = err} {closed = c} u) =
      let held : IdleBody _ = record {
        incoming = rs;
        pending = y ∷ ys;
        pend_err = err;
        closed = c;
      } in
      let more : ltb 0 (length (y ∷ ys)) ≡ true = ground arith in
      (drain (suc k) held, rw more refl, drain-Advance k y ys err rs c u)

  -- When the timer fires, a read takes what is pending all the same, or it gives the timeout.
  pub read-late :
      (idle_timeout : E) (k : ℕ) {b : IdleBody E} {bs : List ℕ} {e : E}
      → Remains bs e b
      → (read idle_timeout true (suc k) b ≡ read idle_timeout false (suc k) b)
        ⊎ (read idle_timeout true (suc k) b
            ≡ some
                (record { out = []; err = some idle_timeout; body = record b { closed = true } }))
  unfolding read
  read-late x k (waiting u) = inr refl
  read-late x k (holding {c = y} {cs = ys} u) =
      let more : ltb 0 (length (y ∷ ys)) ≡ true = ground arith in inl (rw more refl)

  pub until_error-read_loop :
      (reads : List (ReadResult E)) → until_error (read_loop reads) ≡ until_error reads
  unfolding until_error read_loop prepend
  until_error-read_loop [] = refl
  until_error-read_loop ((buf, some e) ∷ reads) = refl
  until_error-read_loop (([], none) ∷ reads) =
      until_error-read_loop reads ∙ sym (prepend-nil (until_error reads))
  until_error-read_loop ((c ∷ cs, none) ∷ reads) =
      ap (prepend (c ∷ cs)) (until_error-read_loop reads)

  pub length-read_loop : (reads : List (ReadResult E)) → length (read_loop reads) ≤ length reads
  unfolding read_loop
  length-read_loop [] = omega arith
  length-read_loop ((buf, some e) ∷ reads) = omega arith
  length-read_loop (([], none) ∷ reads) = omega (arith, length-read_loop reads)
  length-read_loop ((c ∷ cs, none) ∷ reads) = omega (arith, length-read_loop reads)
