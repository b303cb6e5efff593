-- ===== src/Rpc/Framing/Buffers.antt =====
-- The buffers of the frame parser against the bytes they hold: merging, replacing, taking.
use gitglasses.Base.{
  ℕ, zero, suc, ◌-◌, ◌≤◌, ◌≡◌, refl, sym, ap, ◌⊎◌, inl, inr, Option, none, some, List, [], ◌∷◌,
  ◌++◌, arith, append_assoc, append-nil, Bool-cases, leb, leb→le, leb→lt, length, length-append,
  take, drop, take-append, drop-append, take_prefix, take_past, drop_past, concat,
}
use gitglasses.Rpc.Framing.{
  Bytes, FrameParser, zeros, buffer_concat, merged, nonempty, fill, take_chunks, take_bytes,
}
use gitglasses.Rpc.Framing.Stream.{Stream, feed}

-- The bytes that the parser holds, in order, and the size it awaits.
abbrev pub view : FrameParser → Stream
view p = record { bytes = concat p.chunks; awaiting = p.expected }

-- The counter is the number of bytes in the chunks.
abbrev pub IsCounted : FrameParser → Type 0
IsCounted p = p.buffered ≡ length (concat p.chunks)

pub concat-append : (xss yss : List Bytes) → concat (xss ++ yss) ≡ concat xss ++ concat yss
concat-append [] yss = refl
concat-append (xs ∷ xss) yss = rw (concat-append xss yss) (sym (append_assoc xs _ _))

pub concat-nonempty : (bs : Bytes) → concat (nonempty bs) ≡ bs
unfolding nonempty
concat-nonempty [] = refl
concat-nonempty (b ∷ bs) = append-nil (b ∷ bs)

abbrev pub Merges : List Bytes → Option Bytes × List Bytes → Type 0
Merges cs r = ((r.0 ≡ none) × (concat cs ≡ [])) ⊎ (r.0 ≡ some (concat cs))

pub merged-Merges :
    (cs : List Bytes) (n : ℕ)
    → n ≡ length (concat cs)
    → (concat (merged cs n).1 ≡ concat cs) × Merges cs (merged cs n)
unfolding merged buffer_concat
merged-Merges [] n h = (refl, inl (refl, refl))
merged-Merges (c ∷ []) n h = (refl, inr (ap some (sym (append-nil c))))
merged-Merges (c ∷ d ∷ cs) n h =
    let all = take_prefix (concat (c ∷ d ∷ cs)) (zeros (length (concat (c ∷ d ∷ cs)))) in
    rw (h, all) (append-nil _, inr refl)

fill_lem :
    (n : ℕ) (cs : List Bytes)
    → n ≤ length (concat cs)
    → (rest : List Bytes) × (fill n cs ≡ some (take n (concat cs), rest))
      × (concat rest ≡ drop n (concat cs))
unfolding fill
fill_lem zero [] h = ([], refl, refl)
fill_lem (suc n) [] h = elim h [ ]
fill_lem zero (c ∷ cs) h = (c ∷ cs, refl, refl)
fill_lem (suc m) (c ∷ cs) h = elim (Bool-cases (leb (length c) (suc m))) [
  | inl whole ↦
      let fits : length c ≤ suc m = leb→le (length c) (suc m) whole in
      let (rest, e, r) =
        fill_lem (suc m - length c) cs (omega (arith, length-append c (concat cs))) in
      (
        rest,
        ground (arith, e, whole, take_past (suc m) c (concat cs) fits),
        cc (r, drop_past (suc m) c (concat cs) fits),
      )
  | inr part ↦
      let fits : suc m ≤ length c = omega (arith, leb→lt (length c) (suc m) part) in
      (
        drop (suc m) c ∷ cs,
        ground (arith, part, take-append (suc m) c (concat cs) fits),
        sym (drop-append (suc m) c (concat cs) fits),
      )
]

take_chunks_lem :
    (n : ℕ) (cs : List Bytes)
    → n ≤ length (concat cs)
    → (rest : List Bytes) × (take_chunks n cs ≡ some (take n (concat cs), rest))
      × (concat rest ≡ drop n (concat cs))
unfolding take_chunks
take_chunks_lem n [] h = fill_lem n [] h
take_chunks_lem n (c ∷ cs) h = elim (Bool-cases (leb n (length c))) [
  | inl inside ↦
      let fits : n ≤ length c = leb→le n (length c) inside in
      (
        nonempty (drop n c) ++ cs,
        ground (arith, inside, take-append n c (concat cs) fits),
        cc (
          concat-append (nonempty (drop n c)) cs,
          concat-nonempty (drop n c),
          drop-append n c (concat cs) fits,
        ),
      )
  | inr past ↦ rw past (fill_lem n (c ∷ cs) h)
]

pub take_bytes_lem :
    (p : FrameParser) (n : ℕ)
    → IsCounted p
    → n ≤ p.buffered
    → (q : FrameParser) × (take_bytes p n ≡ some (take n (concat p.chunks), q))
      × (concat q.chunks ≡ drop n (concat p.chunks))
      × (q.buffered ≡ p.buffered - n)
unfolding take_bytes
take_bytes_lem p n v h =
    let (rest, e, r) = take_chunks_lem n p.chunks (omega (arith, v)) in
    (record p { chunks = rest; buffered = p.buffered - n }, ground (arith, e), r, refl)

pub feed-nil : (s : Stream) → s ≡ feed s []
feed-nil s = ap (λ bs. record s { bytes = bs }) (sym (append-nil s.bytes))

pub feed-feed : (s : Stream) (bs cs : Bytes) → feed (feed s bs) cs ≡ feed s (bs ++ cs)
feed-feed s bs cs = ap (λ ds. record s { bytes = ds }) (append_assoc s.bytes bs cs)
