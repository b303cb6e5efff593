-- ===== src/Rpc/Framing/Stream.antt =====
-- What the frames of a byte stream are, with no chunks and no counters: the bytes that are left
-- and the body size that is awaited.
use gitglasses.Base.{
  starts_with-length, ◌&&◌, ◌==◌, ℕ, ◌+◌, ◌≤◌, ◌<◌, ◌≡◌, refl, ap, inl, inr, Option, none, some,
  Option-cases, List, [], ◌∷◌, ◌++◌, arith, append_assoc, ltb, if◌then◌else◌, length, length-append,
  take, drop, take-append, drop-append, Text, starts_with,
}
use gitglasses.Rpc.Framing.{Bytes, Utf8, header_end, index_of, content_length}

pub record Stream : Type 0 where
  pub bytes : Bytes
  pub awaiting : Option ℕ

abbrev pub feed : Stream → Bytes → Stream
feed s bs = record s { bytes = s.bytes ++ bs }

-- Whether a pattern that fits stands at the front does not change when bytes are added behind.
starts_with-append :
    (s p t : Bytes) → length p ≤ length s → starts_with (s ++ t) p ≡ starts_with s p
starts_with-append [] [] [] h = refl
starts_with-append [] [] (c ∷ t) h = refl
starts_with-append (c ∷ s) [] t h = refl
starts_with-append [] (d ∷ p) t h = elim h [ ]
starts_with-append (c ∷ s) (d ∷ p) t h = ap (◌&&◌ (c == d)) (starts_with-append s p t (omega arith))

pub index_of-bound : (p s : Bytes) (i : ℕ) → index_of p s ≡ some i → i + length p ≤ length s
unfolding index_of
index_of-bound p [] i h = ground (arith, starts_with-length [] p)
index_of-bound p (c ∷ s) i h = elim (Option-cases (index_of p s)) [
  | inl e ↦ ground (arith, e, starts_with-length (c ∷ s) p)
  | inr (j, e) ↦ ground (arith, e, starts_with-length (c ∷ s) p, index_of-bound p s j e)
]

pub index_of-append : (p s t : Bytes) (i : ℕ) → index_of p s ≡ some i → index_of p (s ++ t) ≡ some i
unfolding index_of
index_of-append [] [] [] i h = h
index_of-append [] [] (c ∷ t) i h = h
index_of-append (d ∷ p) [] t i h = cc
index_of-append p (c ∷ s) t i h = elim (Option-cases (index_of p s)) [
  | inl e ↦ ground (arith, e, starts_with-append (c ∷ s) p t, starts_with-length (c ∷ s) p)
  | inr (j, e) ↦
      ground (
        arith,
        e,
        starts_with-append (c ∷ s) p t,
        index_of-append p s t j e,
        index_of-bound p s j e,
      )
]

module _ (utf8 : Utf8) where
  after_header : Bytes → Option ℕ → Option (List Text × Stream)
  after_header bs none = none
  after_header bs (some i) =
      some (
        [],
        record { bytes = drop (i + 4) bs; awaiting = content_length (utf8.decode (take i bs)) },
      )

  advance_at : Bytes → Option ℕ → Option (List Text × Stream)
  unfolding after_header
  advance_at bs none = after_header bs (index_of header_end bs)
  advance_at bs (some n) =
      if ltb (length bs) n
      then none
      else some (utf8.decode (take n bs) ∷ [], record { bytes = drop n bs; awaiting = none })

  -- Takes one header block or one body off the stream; `none` while more bytes are needed.
  unfoldable pub advance : Stream → Option (List Text × Stream)
  unfolding advance_at
  advance s = advance_at s.bytes s.awaiting

  pub advance-no_header :
      (bs : Bytes)
      → index_of header_end bs ≡ none
      → advance (record { bytes = bs; awaiting = none }) ≡ none
  unfolding advance
  advance-no_header bs e = ground (arith, e)

  pub advance-header :
      (bs : Bytes) (i : ℕ)
      → index_of header_end bs ≡ some i
      → advance (record { bytes = bs; awaiting = none })
        ≡ some (
          [],
          record { bytes = drop (i + 4) bs; awaiting = content_length (utf8.decode (take i bs)) },
        )
  unfolding advance
  advance-header bs i e = ground (arith, e)

  pub advance-body :
      (bs : Bytes) (n : ℕ)
      → n ≤ length bs
      → advance (record { bytes = bs; awaiting = some n })
        ≡ some (utf8.decode (take n bs) ∷ [], record { bytes = drop n bs; awaiting = none })
  unfolding advance
  advance-body bs n h = ground arith

  pub advance-short_body :
      (bs : Bytes) (n : ℕ)
      → length bs < n
      → advance (record { bytes = bs; awaiting = some n }) ≡ none
  unfolding advance
  advance-short_body bs n h = ground arith

  -- From the stream `s` the messages `ms` come out in order, and `u` is left.
  pub data Runs (u : Stream) : Stream → List Text → Type 0 where
    done : Runs u u []
    step :
        {s t : Stream} {ms ns os : List Text}
        → advance s ≡ some (ms, t)
        → Runs u t ns
        → os ≡ ms ++ ns
        → Runs u s os

  pub Runs-trans :
      {t s u : Stream} {ms ns : List Text} → Runs t s ms → Runs u t ns → Runs u s (ms ++ ns)
  Runs-trans done r = r
  Runs-trans {ns = ns} (step {ms = ks} {ns = ls} e q p) r =
      step e (Runs-trans q r) (rw p (append_assoc ks ls ns))

  unique :
      {t s u s' : Stream} {ms ns : List Text}
      → s ≡ s'
      → Runs t s ms
      → advance t ≡ none
      → Runs u s' ns
      → advance u ≡ none
      → (ms ≡ ns) × (t ≡ u)
  unique x done h done k = (refl, x)
  unique x done h (step e r p) k = cc (ap advance x)
  unique x (step e r p) h done k = cc (ap advance x)
  unique x (step {t = t} {ms = ks} e r p) h (step {t = t'} {ms = ks'} e' r' p') k =
      let same : (ks ≡ ks') × (t ≡ t') = ground (arith, ap advance x) in
      let rest = unique same.1 r h r' k in (cc (p, p', rest.0, same.0), rest.1)

  -- A stream is read in one way only, as far as it can be read.
  pub Runs-unique :
      {t s u : Stream} {ms ns : List Text}
      → Runs t s ms
      → advance t ≡ none
      → Runs u s ns
      → advance u ≡ none
      → (ms ≡ ns) × (t ≡ u)
  Runs-unique = unique refl

  -- What can be taken off a stream is not affected by bytes behind it.
  advance_at-feed :
      (bs cs : Bytes) (w : Option ℕ) {ms : List Text} {t : Stream}
      → advance_at bs w ≡ some (ms, t)
      → advance_at (bs ++ cs) w ≡ some (ms, feed t cs)
  unfolding advance_at
  advance_at-feed bs cs none h = elim (Option-cases (index_of header_end bs)) [
    | inl e ↦ ground (arith, e)
    | inr (i, e) ↦ ground (
      arith,
      e,
      index_of-append header_end bs cs i e,
      index_of-bound header_end bs i e,
      take-append i bs cs,
      drop-append (i + 4) bs cs,
    )
  ]
  advance_at-feed bs cs (some n) h =
      ground (arith, length-append bs cs, take-append n bs cs, drop-append n bs cs)

  pub advance-feed :
      (s : Stream) (cs : Bytes) {ms : List Text} {t : Stream}
      → advance s ≡ some (ms, t)
      → advance (feed s cs) ≡ some (ms, feed t cs)
  unfolding advance
  advance-feed s cs h = advance_at-feed s.bytes cs s.awaiting h

  pub Runs-feed :
      {u s : Stream} {ms : List Text} (cs : Bytes) → Runs u s ms → Runs (feed u cs) (feed s cs) ms
  Runs-feed cs done = done
  Runs-feed cs (step {s = s} e r p) = step (advance-feed s cs e) (Runs-feed cs r) p
