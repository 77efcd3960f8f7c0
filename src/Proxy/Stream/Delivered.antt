-- ===== src/Proxy/Stream/Delivered.antt =====
-- A streamed response is delivered whole, to the client, to the parser and to the debug capture.
use llm_proxy.Base.{
  ℕ, suc, zero, ◌+◌, ◌<◌, true, ◌≡◌, refl, ap, sym, ◌∙◌, Option, none, some, List, [], ◌∷◌, ◌++◌,
  length, take, ltb, arith, map_option, append-nil, Bool-cases, inl, inr, ◌⊎◌, subst, append_assoc,
  Bool,
}
use llm_proxy.Base.Int.{ℤ, pos_part}
use llm_proxy.Base.Time.{Time}
use llm_proxy.Base.Floats.{Floats}
use llm_proxy.Json.{Object}
use llm_proxy.Capture.{CappedBuffer, write, write_all, new_capped_buffer}
use llm_proxy.Capture.Prefix.{concat, buf-write_all}
use llm_proxy.Proxy.Stream.{SseParser}
use llm_proxy.Proxy.Stream.Agree.{untimed}
use llm_proxy.Proxy.Stream.Feed.{feed, feed_all}
use llm_proxy.Proxy.Stream.Chunks.{stream_of, IsPartial, feed_all-feed}
use llm_proxy.Proxy.Stream.Idle.{IdleBody, ReadResult, Taken, new_idle_timeout_body, until_error}
use llm_proxy.Proxy.Stream.Remaining.{
  Remains, waiting, Advance, ends, goes, read-Advance, read-late, until_error-read_loop,
  length-read_loop,
}
use llm_proxy.Proxy.Stream.Intercepted.{
  InterceptedBody, Copied, after_read, then_rest, copy_all, or_kept, intercept,
}

same : (o : Option CappedBuffer) → o ≡ map_option (λ tee. write_all tee []) o
unfolding write_all
same none = refl
same (some tee) = refl

-- The bytes of the chunks, in writes.
abbrev pub writes : List (Time × List ℕ) → List (List ℕ)
writes [] = []
writes ((t, xs) ∷ chunks) = xs ∷ writes chunks

map_map :
    (xs : List ℕ) (ps : List (List ℕ)) (o : Option CappedBuffer)
    → map_option (λ tee. write_all tee ps) (map_option (λ tee. (write tee xs).1) o)
      ≡ map_option (λ tee. write_all tee (xs ∷ ps)) o
unfolding write_all
map_map xs ps none = refl
map_map xs ps (some tee) = refl

concat-writes : (chunks : List (Time × List ℕ)) → concat (writes chunks) ≡ stream_of chunks
unfolding concat stream_of
concat-writes [] = refl
concat-writes ((t, xs) ∷ chunks) = ap (λ bs. xs ++ bs) (concat-writes chunks)

module _ {E : Type 0} (Fl : Floats) (to_int64 : Fl.F → ℤ)
    (unmarshal : List ℕ → Option (Object Fl.F)) where
  -- One body after another, when the bytes `xs` have gone through.
  record Fed (xs : List ℕ) (b c : InterceptedBody E Fl.F) : Type 0 where
    chunks : List (Time × List ℕ)
    whole : stream_of chunks ≡ xs
    parser : c.parser ≡ feed_all Fl to_int64 unmarshal chunks b.parser
    tee : c.tee ≡ map_option (λ tee. write_all tee (writes chunks)) b.tee

  -- A read, and what comes after it.
  after_read-Fed :
      (now : Time) (out : List ℕ) (err : Option E) (body : IdleBody E) {more : List ℕ}
      (b c : InterceptedBody E Fl.F)
      → Fed more
          (after_read Fl to_int64 unmarshal now (record { out = out; err = err; body = body }) b)
          c
      → Fed (out ++ more) b c
  unfolding after_read stream_of feed_all
  after_read-Fed now [] err body b c f = record {
    chunks = f.chunks;
    whole = f.whole;
    parser = f.parser;
    tee = f.tee;
  }
  after_read-Fed now (x ∷ xs) err body b c f =
      let written : ltb 0 (length (x ∷ xs)) ≡ true = ground arith in
      let g = rw written at f in
      record {
        chunks = (now, x ∷ xs) ∷ g.chunks;
        whole = ap (λ bs. x ∷ xs ++ bs) g.whole;
        parser = g.parser;
        tee = g.tee ∙ map_map (x ∷ xs) (writes g.chunks) b.tee;
      }

  body-after_read :
      (now : Time) (t : Taken E) (b : InterceptedBody E Fl.F)
      → (after_read Fl to_int64 unmarshal now t b).body ≡ t.body
  unfolding after_read
  body-after_read now t b = elim (Bool-cases (ltb 0 (length t.out))) [
    | inl e ↦ rw e refl
    | inr e ↦ rw e refl
  ]

  read_err-after_read :
      (now : Time) (t : Taken E) (b : InterceptedBody E Fl.F)
      → (after_read Fl to_int64 unmarshal now t b).read_err ≡ or_kept t.err b.read_err
  unfolding after_read
  read_err-after_read now t b = elim (Bool-cases (ltb 0 (length t.out))) [
    | inl e ↦ rw e refl
    | inr e ↦ rw e refl
  ]

  module _ (idle_timeout : E) (late : ℕ → Bool) where
    -- How the loop ends: with all bytes and the error, or, if the timer fires before a read that has
    -- nothing pending, with the bytes so far and the timeout.
    abbrev pub Ended : List ℕ → E → List ℕ → E → Type 0
    Ended bs e sent err =
        ((sent ≡ bs) × (err ≡ e))
        ⊎ ((j : ℕ) × (late j ≡ true)
            × (err ≡ idle_timeout)
            × ((rest : List ℕ) × (bs ≡ sent ++ rest)))

    -- The reader's loop comes to its end.
    record Delivered (bs : List ℕ) (e : E) (b : InterceptedBody E Fl.F) (o : Option (Copied E Fl.F))
        : Type 0 where
      sent : List ℕ
      err : E
      final : InterceptedBody E Fl.F
      copied : o ≡ some (record { sent = sent; err = err; final = final })
      fed : Fed sent b final
      kept : final.read_err ≡ some err
      ended : Ended bs e sent err

  module _ (idle_timeout : E) (late : ℕ → Bool) (clock : ℕ → Time) (sizes : ℕ → ℕ) where
    later_Ended :
        (out more bs : List ℕ) (e : E) (sent : List ℕ) (err : E)
        → bs ≡ out ++ more
        → Ended idle_timeout late more e sent err
        → Ended idle_timeout late bs e (out ++ sent) err
    later_Ended out more bs e sent err q (inl (s, x)) = inl (ap (λ xs. out ++ xs) s ∙ sym q, x)
    later_Ended out more bs e sent err q (inr (j, l, x, (rest, s))) =
        inr (j, l, x, (rest, q ∙ ap (λ xs. out ++ xs) s ∙ sym (append_assoc out sent rest)))

    step-Delivered :
        (k : ℕ) (b : InterceptedBody E Fl.F) {bs : List ℕ} {e : E} (t : Taken E)
        → Advance bs e (length bs + length b.body.incoming) t
        → length bs + length b.body.incoming < suc k
        → ((c : InterceptedBody E Fl.F) (cs : List ℕ)
            → Remains cs e c.body
            → length cs + length c.body.incoming < k
            → Delivered idle_timeout late cs e c
                (copy_all Fl to_int64 unmarshal idle_timeout late clock sizes k c))
        → Delivered idle_timeout late bs e b (
            then_rest Fl to_int64 unmarshal t (after_read Fl to_int64 unmarshal (clock k) t b) (
              copy_all Fl to_int64 unmarshal idle_timeout late clock sizes k
                (after_read Fl to_int64 unmarshal (clock k) t b)))
    unfolding then_rest feed_all stream_of
    step-Delivered k b {bs = bs} {e = e} _ (ends {b = body}) h later =
        let t : Taken E = record { out = bs; err = some e; body = body } in
        let c = after_read Fl to_int64 unmarshal (clock k) t b in
        let nothing : Fed [] c c = record {
          chunks = [];
          whole = refl;
          parser = refl;
          tee = same c.tee;
        } in
        record {
          sent = bs;
          err = e;
          final = c;
          copied = refl;
          ended = inl (refl, refl);
          fed =
              subst (λ xs. Fed xs b c) (append-nil bs)
                (after_read-Fed (clock k) bs (some e) body b c nothing);
          kept = read_err-after_read (clock k) t b;
        }
    step-Delivered k b {bs = bs} {e = e} _ (goes {out = out} {more = more} {b = body} eq rest less)
          h later =
        let t : Taken E = record { out = out; err = none; body = body } in
        let b' = after_read Fl to_int64 unmarshal (clock k) t b in
        let moved = body-after_read (clock k) t b in
        let count : length b'.body.incoming ≡ length body.incoming =
          ap (λ body. length body.incoming) moved in
        let d =
          later b' more (subst (Remains more e) (sym moved) rest) (omega (arith, h, less, count)) in
        record {
          sent = out ++ d.sent;
          err = d.err;
          final = d.final;
          copied = ap (then_rest Fl to_int64 unmarshal t b') d.copied;
          fed = after_read-Fed (clock k) out none body b d.final d.fed;
          kept = d.kept;
          ended = later_Ended out more bs e d.sent d.err eq d.ended;
        }

    -- A read that the timer cuts off.
    timed_out-Delivered :
        (k : ℕ) (b : InterceptedBody E Fl.F) {bs : List ℕ} {e : E}
        → late k ≡ true
        → let t : Taken E = record {
          out = [];
          err = some idle_timeout;
          body = record b.body { closed = true };
        } in
          Delivered idle_timeout late bs e b (
            then_rest Fl to_int64 unmarshal t (after_read Fl to_int64 unmarshal (clock k) t b) (
              copy_all Fl to_int64 unmarshal idle_timeout late clock sizes k
                (after_read Fl to_int64 unmarshal (clock k) t b)))
    unfolding then_rest feed_all stream_of
    timed_out-Delivered k b {bs = bs} l =
        let body : IdleBody E = record b.body { closed = true } in
        let t : Taken E = record { out = []; err = some idle_timeout; body = body } in
        let c = after_read Fl to_int64 unmarshal (clock k) t b in
        let nothing : Fed [] c c = record {
          chunks = [];
          whole = refl;
          parser = refl;
          tee = same c.tee;
        } in
        record {
          sent = [];
          err = idle_timeout;
          final = c;
          copied = refl;
          fed = after_read-Fed (clock k) [] (some idle_timeout) body b c nothing;
          kept = read_err-after_read (clock k) t b;
          ended = inr (k, l, refl, (bs, refl));
        }

    copied-Delivered :
        (k : ℕ) (b : InterceptedBody E Fl.F) {bs : List ℕ} {e : E}
        → Remains bs e b.body
        → length bs + length b.body.incoming < k
        → Delivered idle_timeout late bs e b
            (copy_all Fl to_int64 unmarshal idle_timeout late clock sizes k b)
    unfolding copy_all
    copied-Delivered zero b r h = absurd (omega (arith, h))
    copied-Delivered (suc k) b r h =
        let (t, eq, adv) = read-Advance idle_timeout (sizes k) r in
        let going = step-Delivered k b t adv h (λ c cs. copied-Delivered k c) in
        elim (Bool-cases (late k)) [
          | inr l ↦ rw (l, eq, copy_all) going
          | inl l ↦ elim (read-late idle_timeout (sizes k) r) [
            | inl q ↦ rw (l, q, eq, copy_all) going
            | inr q ↦ rw (l, q, copy_all) (timed_out-Delivered k b l)
          ]
        ]

    -- For a backend's body that ends in an error such as EOF, and whenever the idle timer fires, a
    -- reader with slices of any positive sizes reaches an end in no more reads than there are
    -- bytes and results, and one more. It gets all bytes up to the error and then the error, or,
    -- only if the timer fires, some of the first bytes and then the timeout. In both cases the
    -- parser, if its saved line has no newline, is left as the bytes sent, all at once, leave it
    -- but for times, the debug capture holds the first of them up to its limit, and the error is
    -- kept for Close.
    pub copy_all-until_error :
        (k : ℕ) (now : Time) (reads : List (ReadResult E)) (parser : SseParser Fl.F) (max : ℤ)
        {bs : List ℕ} {e : E}
        → until_error reads ≡ some (bs, e)
        → length bs + length reads < k
        → IsPartial parser.line_buf
        → (c : InterceptedBody E Fl.F) × (sent : List ℕ) × (err : E) × (copy_all Fl to_int64
              unmarshal idle_timeout late clock sizes k
              (intercept (new_idle_timeout_body reads) parser (some (new_capped_buffer max)))
            ≡ some (record { sent = sent; err = err; final = c }))
          × Ended idle_timeout late bs e sent err
          × (untimed c.parser ≡ untimed (feed Fl to_int64 unmarshal now sent parser))
          × (map_option (λ tee. tee.buf) c.tee ≡ some (take (pos_part max) sent))
          × (c.read_err ≡ some err)
    copy_all-until_error k now reads parser max {bs = bs} {e = e} u h p =
        let left = length-read_loop reads in
        let b = intercept (new_idle_timeout_body reads) parser (some (new_capped_buffer max)) in
        let d =
          copied-Delivered k b (waiting (until_error-read_loop reads ∙ u))
            (omega (arith, h, left)) in
        let fed = d.fed in
        let all = concat-writes fed.chunks ∙ fed.whole in
        (
          d.final,
          d.sent,
          d.err,
          d.copied,
          d.ended,
          ap untimed fed.parser
              ∙ feed_all-feed Fl to_int64 unmarshal now fed.chunks parser p
              ∙ ap (λ xs. untimed (feed Fl to_int64 unmarshal now xs parser)) fed.whole,
          ap (map_option (λ tee. tee.buf)) fed.tee
              ∙ ap some (buf-write_all max (writes fed.chunks) ∙ ap (take (pos_part max)) all),
          d.kept,
        )
