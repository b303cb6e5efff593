-- ===== src/Rpc/Framing/RoundTrip.antt =====
-- What `frame` writes, the parser reads back.
use gitglasses.Base.{
  subst, take, take_prefix, drop_prefix, ◌+◌, map, length-append, drop, concat, List, sym, none,
  false, append_assoc, ◌==◌, ◌<◌, All-append, true, length, All, ℕ, ◌≡◌, refl, ap, ◌∙◌, ◌≢◌, some,
  [], ◌∷◌, ◌++◌, arith, Text, is_space, digit-not-space, trim_start, codes,
}
use gitglasses.Base.Decimal.{
  number_of, decimal, AreDigits, decimal-AreDigits, decimal-ne-nil, number_of-decimal,
}
use gitglasses.Rpc.Framing.{
  init, push_all, FrameParser, header_end, frame, Bytes, is_well_formed, index_of, Utf8,
  content_length, content_length_here, number_of_run, digit_run,
}
use gitglasses.Rpc.Framing.Stream.{
  Runs-unique, advance-no_header, advance-header, step, done, advance-body, advance, Runs,
}
use gitglasses.Rpc.Framing.Buffers.{view}
use gitglasses.Rpc.Framing.Refines.{push_all_reads}

digit_run_self : (s : Text) → AreDigits s → digit_run s ≡ s
digit_run_self [] h = refl
digit_run_self (c ∷ s) h = ground (arith, digit_run_self s h.1)

number_after_space :
    (s : Text)
    → AreDigits s
    → s ≢ []
    → number_of_run (digit_run (trim_start (32 ∷ s))) ≡ some (number_of 0 s)
unfolding number_of_run is_space
number_after_space [] d h = absurd (h refl)
number_after_space (c ∷ s) d h =
    rw (digit-not-space c d.0) (rw d.0 (rw (digit_run_self s d.1) refl))

header_text : ℕ → Text
header_text n = codes "Content-Length: " ++ decimal n

content_length_front :
    (c : ℕ) (s : Text) (n : ℕ)
    → content_length_here (c ∷ s) ≡ some n
    → content_length (c ∷ s) ≡ some n
unfolding content_length
content_length_front c s n h = rw (h, content_length)

content_length-header : (n : ℕ) → content_length (header_text n) ≡ some n
unfolding header_text content_length_here
content_length-header n = content_length_front b'C' _ n (
    number_after_space (decimal n) (decimal-AreDigits n) (decimal-ne-nil n)
    ∙ ap some (number_of-decimal n))

-- No carriage return stands before the header's end.
index_of-header_end :
    (h rest : Bytes)
    → All (λ c. (c == 13) ≡ false) h
    → index_of header_end (h ++ header_end ++ rest) ≡ some (length h)
unfolding index_of
index_of-header_end [] rest d = refl
index_of-header_end (c ∷ h) rest d = ground (arith, index_of-header_end h rest d.1)

AreDigits-ascii : (s : Text) → AreDigits s → All (λ c. c < 128) s × All (λ c. (c == 13) ≡ false) s
AreDigits-ascii [] d = (tt, tt)
AreDigits-ascii (c ∷ s) d =
    let rest = AreDigits-ascii s d.1 in ((ground arith, rest.0), (ground arith, rest.1))

ascii-is_well_formed : (s : Text) → All (λ c. c < 128) s → is_well_formed s ≡ true
unfolding is_well_formed
ascii-is_well_formed [] a = refl
ascii-is_well_formed (c ∷ []) a = ground arith
ascii-is_well_formed (c ∷ d ∷ s) a = ground (arith, ascii-is_well_formed (d ∷ s) a.1)

module _ (utf8 : Utf8) where
  header-ascii : (n : ℕ) → All (λ c. c < 128) (header_text n)
  unfolding header_text
  header-ascii n =
      All-append (λ c. c < 128) (codes "Content-Length: ") (decimal n) (omega arith)
        (AreDigits-ascii (decimal n) (decimal-AreDigits n)).0

  header-no_return : (n : ℕ) → All (λ c. (c == 13) ≡ false) (header_text n)
  unfolding header_text
  header-no_return n =
      All-append (λ c. (c == 13) ≡ false) (codes "Content-Length: ") (decimal n) (ground arith)
        (AreDigits-ascii (decimal n) (decimal-AreDigits n)).1

  decode-ascii : (s : Text) → All (λ c. c < 128) s → utf8.decode s ≡ s
  decode-ascii s a =
      ap utf8.decode (sym (utf8.encode_ascii s a)) ∙ utf8.decode-encode s (ascii-is_well_formed s a)

  frame-eq :
      (payload : Text)
      → frame utf8 payload
        ≡ header_text (length (utf8.encode payload)) ++ header_end ++ utf8.encode payload
  unfolding frame header_text
  frame-eq payload =
      let n = length (utf8.encode payload) in
      ap (λ h. h ++ utf8.encode payload)
        (utf8.encode_ascii (header_text n ++ header_end)
          (All-append (λ c. c < 128) (header_text n) header_end (header-ascii n) (omega arith)))

  header_step :
      (n : ℕ) (bs : Bytes)
      → advance utf8 (record { bytes = header_text n ++ header_end ++ bs; awaiting = none })
        ≡ some ([], record { bytes = bs; awaiting = some n })
  header_step n bs =
      let h = header_text n in
      let all = h ++ header_end ++ bs in
      let dropped : drop (length h + 4) all ≡ bs =
        ap (λ k. drop k all) (sym (length-append h header_end))
        ∙ drop_prefix (h ++ header_end) bs in
      let taken : take (length h) all ≡ h =
        ap (take (length h)) (append_assoc h header_end bs) ∙ take_prefix h (header_end ++ bs) in
      let size : content_length (utf8.decode (take (length h) all)) ≡ some n =
        ap (λ t. content_length (utf8.decode t)) taken
        ∙ ap content_length (decode-ascii h (header-ascii n))
        ∙ content_length-header n in
      cc (
        advance-header utf8 all (length h) (index_of-header_end h bs (header-no_return n)),
        dropped,
        size,
      )

  body_step :
      (payload : Text) (rest : Bytes)
      → is_well_formed payload ≡ true
      → let body = utf8.encode payload in
        advance utf8 (record { bytes = body ++ rest; awaiting = some (length body) })
        ≡ some (payload ∷ [], record { bytes = rest; awaiting = none })
  body_step payload rest w =
      let body = utf8.encode payload in
      cc (
        advance-body utf8 (body ++ rest) (length body) (omega (arith, length-append body rest)),
        take_prefix body rest,
        drop_prefix body rest,
        utf8.decode-encode payload w,
      )

  -- The messages of a stream of frames are their payloads.
  Runs-frames :
      (ps : List Text)
      → All (λ p. is_well_formed p ≡ true) ps
      → Runs utf8
          (record { bytes = []; awaiting = none })
          (record { bytes = concat (map (frame utf8) ps); awaiting = none })
          ps
  Runs-frames [] w = done
  Runs-frames (p ∷ ps) w =
      let body = utf8.encode p in
      let rest = concat (map (frame utf8) ps) in
      let bytes : frame utf8 p ++ rest ≡ header_text (length body) ++ header_end ++ (body ++ rest) =
        ap (λ bs. bs ++ rest) (frame-eq p)
        ∙ append_assoc (header_text (length body) ++ header_end) body rest in
      step
        (ap (λ bs. advance utf8 (record { bytes = bs; awaiting = none })) bytes
          ∙ header_step (length body) (body ++ rest))
        (step (body_step p rest w.0) (Runs-frames ps w.1) refl) refl

  -- However the frames of well-formed payloads, one after the other, are cut into chunks, a fresh
  -- parser that is fed the chunks returns exactly the payloads, in order, and holds nothing.
  pub frames_round_trip :
      (ps : List Text) (chunks : List Bytes)
      → All (λ p. is_well_formed p ≡ true) ps
      → concat chunks ≡ concat (map (frame utf8) ps)
      → (q : FrameParser) × (push_all utf8 init chunks ≡ some (ps, q))
        × (view q ≡ record { bytes = []; awaiting = none })
  frames_round_trip ps chunks w e =
      let waits = advance-no_header utf8 [] (unfold index_of in refl) in
      let (ms, q, pushed, v, runs, stuck) = push_all_reads utf8 init chunks refl waits in
      let runs' =
        subst (λ bs. Runs utf8 (view q) (record { bytes = bs; awaiting = none }) ms) e runs in
      let same = Runs-unique utf8 runs' stuck (Runs-frames ps w) waits in
      (q, cc (pushed, same.0), same.1)
