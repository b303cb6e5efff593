-- ===== src/Rpc/Framing/Headers.antt =====
-- Reading a header block from the chunks is a step on the stream of their bytes.
use gitglasses.Base.{
  ℕ, ◌+◌, ◌<◌, ◌≡◌, refl, sym, ap, inl, inr, Option, none, some, Option-cases, List, [], arith,
  length, length-drop, take, drop, concat,
}
use gitglasses.Rpc.Framing.{
  Bytes, Utf8, FrameParser, Header, stop, malformed, ready, header_end, index_of, content_length,
  merged, nonempty, replace_with, expect, split_header, scan_header, read_header,
}
use gitglasses.Rpc.Framing.Stream.{
  index_of-bound, advance, advance-no_header, advance-header, step, Runs, done,
}
use gitglasses.Rpc.Framing.Buffers.{view, IsCounted, concat-nonempty, Merges, merged-Merges}

-- The bytes held, and one more between a header and its body: what falls with every round.
unfoldable pub weight : FrameParser → ℕ
weight p = p.buffered + (elim p.expected [ none ↦ 0 | some n ↦ 1 ])

-- Reading a header block, seen on the stream.
module _ (utf8 : Utf8) where
  abbrev pub Reads : FrameParser → Header → Type 0
  Reads p (stop q) = IsCounted q × (view q ≡ view p) × (advance utf8 (view p) ≡ none)
  Reads p (malformed q) =
      IsCounted q
      × (advance utf8 (view p) ≡ some ([], view q))
      × (q.expected ≡ none)
      × (q.buffered < p.buffered)
  Reads p (ready n q) =
      IsCounted q × Runs utf8 (view q) (view p) [] × (q.expected ≡ some n) × (q.buffered < weight p)

  abbrev between : List Bytes → ℕ → FrameParser
  between cs b = record { chunks = cs; buffered = b; expected = none }

  header-advance :
      (bs rest : Bytes) (i : ℕ) (c : Option ℕ)
      → index_of header_end bs ≡ some i
      → content_length (utf8.decode (take i bs)) ≡ c
      → rest ≡ drop (i + 4) bs
      → advance utf8 (record { bytes = bs; awaiting = none })
        ≡ some ([], record { bytes = rest; awaiting = c })
  header-advance bs rest i c e k r = cc (advance-header utf8 bs i e)

  expect-Reads :
      (cs cs' : List Bytes) (b i : ℕ) (c : Option ℕ)
      → b ≡ length (concat cs)
      → index_of header_end (concat cs) ≡ some i
      → content_length (utf8.decode (take i (concat cs))) ≡ c
      → Reads
          (between cs b)
          (expect utf8 c (replace_with (between cs' b) (drop (i + 4) (concat cs))))
  unfolding expect replace_with weight
  expect-Reads cs cs' b i none v e k =
      let rest = drop (i + 4) (concat cs) in
      let kept = concat-nonempty rest in
      (
        ap length (sym kept),
        header-advance (concat cs) (concat (nonempty rest)) i none e k kept,
        refl,
        omega
            (arith, v, index_of-bound header_end (concat cs) i e, length-drop (i + 4) (concat cs)),
      )
  expect-Reads cs cs' b i (some n) v e k =
      let rest = drop (i + 4) (concat cs) in
      let kept = concat-nonempty rest in
      (
        ap length (sym kept),
        step (header-advance (concat cs) (concat (nonempty rest)) i (some n) e k kept) done refl,
        refl,
        omega
            (arith, v, index_of-bound header_end (concat cs) i e, length-drop (i + 4) (concat cs)),
      )

  scan-Reads :
      (cs cs' : List Bytes) (b : ℕ) (head : Option Bytes)
      → b ≡ length (concat cs)
      → concat cs' ≡ concat cs
      → Merges cs (head, cs')
      → Reads (between cs b) (scan_header utf8 (head, between cs' b))
  unfolding scan_header index_of
  scan-Reads cs cs' b none v k (inl (h, e)) = (
    rw k v,
    ap (λ bs. record { bytes = bs; awaiting = none }) k,
    advance-no_header utf8 (concat cs) (rw e refl),
  )
  scan-Reads cs cs' b none v k (inr h) = cc
  scan-Reads cs cs' b (some head) v k (inl (h, e)) = cc
  scan-Reads cs cs' b (some head) v k (inr h) =
      let h' : head ≡ concat cs = cc in
      rw h' (elim (Option-cases (index_of header_end (concat cs))) [
        | inl e ↦
            rw (e, split_header)
              (
                rw k v,
                ap (λ bs. record { bytes = bs; awaiting = none }) k,
                advance-no_header utf8 (concat cs) e,
              )
        | inr (i, e) ↦ rw (e, split_header) (expect-Reads cs cs' b i _ v e refl)
      ])

  read_header_at-Reads :
      (cs : List Bytes) (b : ℕ) (w : Option ℕ)
      → b ≡ length (concat cs)
      → let p : FrameParser = record { chunks = cs; buffered = b; expected = w } in
        Reads p (read_header utf8 p)
  unfolding read_header weight
  read_header_at-Reads cs b (some n) v = (v, done, refl, omega arith)
  read_header_at-Reads cs b none v =
      let m = merged-Merges cs b v in scan-Reads cs (merged cs b).1 b (merged cs b).0 v m.0 m.1

  pub read_header-Reads : (p : FrameParser) → IsCounted p → Reads p (read_header utf8 p)
  read_header-Reads p v = read_header_at-Reads p.chunks p.buffered p.expected v
