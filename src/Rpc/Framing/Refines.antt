-- ===== src/Rpc/Framing/Refines.antt =====
-- The chunked parser reads its stream: `push` returns, and takes off exactly what the bytes hold.
use gitglasses.Base.{
  ℕ, zero, suc, ◌+◌, ◌≤◌, ◌<◌, ◌≡◌, refl, sym, ap, subst, ◌∙◌, inl, inr, Option, none, some, List,
  [], ◌∷◌, ◌++◌, arith, append-nil, ltb, Bool-cases, ltb→le, ltb→lt, length, length-append,
  length-drop, take, drop, concat, Text,
}
use gitglasses.Rpc.Framing.{
  Bytes, Utf8, FrameParser, Header, stop, malformed, ready, read_header, on_header, drain, received,
  push, push_all,
}
use gitglasses.Rpc.Framing.Stream.{
  feed, advance, advance-body, advance-short_body, step, Runs, Runs-trans, Runs-feed, Runs-unique,
  done,
}
use gitglasses.Rpc.Framing.Buffers.{
  view, IsCounted, take_bytes_lem, feed-nil, feed-feed, concat-append,
}
use gitglasses.Rpc.Framing.Headers.{weight, Reads, read_header-Reads}

module _ (utf8 : Utf8) where
  weight-less :
      (q p : FrameParser) → q.expected ≡ none → q.buffered < p.buffered → weight q < weight p
  unfolding weight
  weight-less q p w h = ground arith

  weight-bound : (p : FrameParser) → weight p < p.buffered + 2
  unfolding weight
  weight-bound p = ground arith

  body_step :
      (q : FrameParser) (n : ℕ) (r : FrameParser)
      → q.expected ≡ some n
      → concat r.chunks ≡ drop n (concat q.chunks)
      → n ≤ length (concat q.chunks)
      → advance utf8 (view q)
        ≡ some (utf8.decode (take n (concat q.chunks)) ∷ [], view (record r { expected = none }))
  body_step q n r w e h = rw (w, e) (advance-body utf8 (concat q.chunks) n h)

  abbrev Drains : FrameParser → Option (List Text × FrameParser) → Type 0
  Drains p r =
      (ms : List Text) × (q : FrameParser) × (r ≡ some (ms, q))
      × IsCounted q
      × Runs utf8 (view q) (view p) ms
      × (advance utf8 (view q) ≡ none)

  on_header-Drains :
      (p : FrameParser) (again : FrameParser → Option (List Text × FrameParser)) (h : Header)
      → ((q : FrameParser) → IsCounted q → weight q < weight p → Drains q (again q))
      → Reads utf8 p h
      → Drains p (on_header utf8 again h)
  unfolding on_header
  on_header-Drains p again (stop q) ih (v, same, waits) =
      ([], q, refl, v, subst (λ s. Runs utf8 (view q) s []) same done, rw same waits)
  on_header-Drains p again (malformed q) ih (v, adv, w, less) =
      let (ms, r, e, u, runs, waits) = ih q v (weight-less q p w less) in
      (ms, r, e, u, step adv runs refl, waits)
  on_header-Drains p again (ready n q) ih (v, runs, w, less) =
      elim (Bool-cases (ltb q.buffered n)) [
        | inl short ↦
            let few : length (concat q.chunks) < n = omega (arith, v, ltb→lt q.buffered n short) in
            ([], q, rw short, v, runs, rw w (advance-short_body utf8 (concat q.chunks) n few))
        | inr whole ↦
            let fits : n ≤ q.buffered = ltb→le q.buffered n whole in
            let (r, e, bytes, count) = take_bytes_lem q n v fits in
            let counted : r.buffered ≡ length (concat r.chunks) =
              omega (arith, ap length bytes, length-drop n (concat q.chunks), v, count) in
            let (ms, t, e', u, rest, waits) =
              ih (record r { expected = none }) counted
                (unfold weight in omega (arith, count, less)) in
            (
              utf8.decode (take n (concat q.chunks)) ∷ ms,
              t,
              rw (whole, e, e'),
              u,
              Runs-trans utf8 runs
                  (step (body_step q n r w bytes (omega (arith, fits, v))) rest refl),
              waits,
            )
      ]

  drain-Drains :
      (fuel : ℕ) (p : FrameParser) → IsCounted p → weight p < fuel → Drains p (drain utf8 fuel p)
  unfolding drain
  drain-Drains zero p v h = elim h [ ]
  drain-Drains (suc fuel) p v h =
      on_header-Drains p (drain utf8 fuel) (read_header utf8 p)
        (λ q u less. drain-Drains fuel q u (omega (arith, less))) (read_header-Reads utf8 p v)

  received_lem :
      (p : FrameParser) (chunk : Bytes)
      → IsCounted p
      → IsCounted (received p chunk) × (view (received p chunk) ≡ feed (view p) chunk)
  unfolding received
  received_lem p [] v = (v, ap (λ bs. record (view p) { bytes = bs }) (sym (append-nil _)))
  received_lem p (b ∷ bs) v =
      let same : concat (p.chunks ++ (b ∷ bs) ∷ []) ≡ concat p.chunks ++ (b ∷ bs) =
        concat-append p.chunks ((b ∷ bs) ∷ [])
        ∙ ap (◌++◌ (concat p.chunks)) (append-nil (b ∷ bs)) in
      (
        omega (arith, ap length same, length-append (concat p.chunks) (b ∷ bs), v),
        ap (λ xs. record (view p) { bytes = xs }) same,
      )

  -- From a parser whose counter is right, `push` returns: the messages are those that the held bytes
  -- and the new ones carry, in order, the rest is held, and no further message can be read from it.
  pub push_reads :
      (p : FrameParser) (chunk : Bytes)
      → IsCounted p
      → (ms : List Text) × (q : FrameParser) × (push utf8 p chunk ≡ some (ms, q))
        × IsCounted q
        × Runs utf8 (view q) (feed (view p) chunk) ms
        × (advance utf8 (view q) ≡ none)
  unfolding push
  push_reads p chunk v =
      let (counted, same) = received_lem p chunk v in
      let q = received p chunk in
      let (ms, r, e, u, runs, waits) = drain-Drains (q.buffered + 2) q counted (weight-bound q) in
      (ms, r, e, u, subst (λ s. Runs utf8 (view r) s ms) same runs, waits)

  -- The chunks of a stream, one by one.
  pub push_all_reads :
      (p : FrameParser) (chunks : List Bytes)
      → IsCounted p
      → advance utf8 (view p) ≡ none
      → (ms : List Text) × (q : FrameParser) × (push_all utf8 p chunks ≡ some (ms, q))
        × IsCounted q
        × Runs utf8 (view q) (feed (view p) (concat chunks)) ms
        × (advance utf8 (view q) ≡ none)
  unfolding push_all
  push_all_reads p [] v h =
      ([], p, refl, v, subst (λ s. Runs utf8 (view p) s []) (feed-nil (view p)) done, h)
  push_all_reads p (c ∷ cs) v h =
      let (ms, q, e, u, runs, waits) = push_reads p c v in
      let (ns, r, e', u', runs', waits') = push_all_reads q cs u waits in
      (
        ms ++ ns,
        r,
        rw (e, push_all, e'),
        u',
        Runs-trans utf8
            (subst (λ s. Runs utf8 (feed (view q) (concat cs)) s ms)
              (feed-feed (view p) c (concat cs)) (Runs-feed utf8 (concat cs) runs))
            runs',
        waits',
      )

  -- However the bytes are cut into chunks, feeding the chunks one by one to a parser whose counter is
  -- right and that can read no further gives the messages of the whole, in order, and leaves the same
  -- bytes and the same awaited size as feeding them at once.
  pub push_all-push :
      (p : FrameParser) (chunks : List Bytes)
      → IsCounted p
      → advance utf8 (view p) ≡ none
      → (ms : List Text) × (q r : FrameParser) × (push_all utf8 p chunks ≡ some (ms, q))
        × (push utf8 p (concat chunks) ≡ some (ms, r))
        × (view q ≡ view r)
  push_all-push p chunks v h =
      let (ms, q, e, u, runs, waits) = push_all_reads p chunks v h in
      let (ns, r, e', u', runs', waits') = push_reads p (concat chunks) v in
      let same = Runs-unique utf8 runs waits runs' waits' in (ms, q, r, e, cc (e', same.0), same.1)
