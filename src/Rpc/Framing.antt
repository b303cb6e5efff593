-- ===== src/Rpc/Framing.antt =====
-- packages/rpc/src/framing.ts: Content-Length framing over a byte stream. A buffer is its list of
-- bytes. Buffer's UTF-8 conversions are parameters, `Utf8`; `none` is a thrown TypeError or a run
-- out of fuel, and `push` has fuel for every byte.
pub mod Stream
pub mod Buffers
pub mod Headers
pub mod Refines
pub mod RoundTrip
mod Examples
use mathlib.Core.Option
use gitglasses.Base.{
  ℕ, zero, suc, ◌+◌, ◌-◌, ◌*◌, ◌≤◌, ◌<◌, ◌≡◌, Bool, true, false, ◌&&◌, ◌||◌, Option, none, some,
  List, [], ◌∷◌, ◌++◌, map, ltb, leb, ◌==◌, if◌then◌else◌, length, take, drop, All, concat, Text,
  codes, starts_with, is_digit, trim_start,
}
use gitglasses.Base.Decimal.{decimal, number_of}

abbrev pub Bytes : Type 0
Bytes = List ℕ

abbrev high_surrogate : ℕ → Bool
high_surrogate c = leb 0xd800 c && leb c 0xdbff

abbrev low_surrogate : ℕ → Bool
low_surrogate c = leb 0xdc00 c && leb c 0xdfff

-- `String.prototype.isWellFormed`: every surrogate stands in a pair.
pub is_well_formed : Text → Bool
is_well_formed [] = true
is_well_formed (c ∷ []) = if high_surrogate c || low_surrogate c then false else true
is_well_formed (c ∷ d ∷ t) =
    let paired = is_well_formed t in
    let single = is_well_formed (d ∷ t) in
    if high_surrogate c
    then low_surrogate d && paired
    else if low_surrogate c
    then false
    else single

-- `Buffer.from(text, 'utf8')` and `buffer.toString('utf8')`, with what UTF-8 promises of them.
pub record Utf8 : Type 0 where
  pub encode : Text → Bytes
  pub decode : Bytes → Text
  pub decode-encode : (t : Text) → is_well_formed t ≡ true → decode (encode t) ≡ t
  pub encode_ascii : (t : Text) → All (λ c. c < 128) t → encode t ≡ t

-- '\r\n\r\n'
abbrev pub header_end : Bytes
header_end = 13 ∷ 10 ∷ 13 ∷ 10 ∷ []

-- `buffer.indexOf(pattern)`; `none` for -1.
unfoldable pub index_of : Bytes → Bytes → Option ℕ
index_of p [] = if starts_with [] p then some 0 else none
index_of p (c ∷ s) =
    let later = Option.map suc (index_of p s) in if starts_with (c ∷ s) p then some 0 else later

-- `/i` folds ASCII letters.
abbrev pub to_lower : ℕ → ℕ
to_lower c = if leb b'A' c && leb c b'Z' then c + 32 else c

-- The longest run of digits, and the number it spells.
abbrev pub digit_run : Text → Text
digit_run [] = []
digit_run (c ∷ s) = let rest = digit_run s in if is_digit c then c ∷ rest else []

number_of_run : Text → Option ℕ
number_of_run [] = none
number_of_run (c ∷ s) = some (number_of 0 (c ∷ s))

-- /Content-Length:\s*(\d+)/i anchored at the front of the text.
content_length_here : Text → Option ℕ
unfolding number_of_run
content_length_here s =
    if starts_with (map to_lower s) (codes "content-length:")
    then number_of_run (digit_run (trim_start (drop 15 s)))
    else none

-- The leftmost match of the pattern.
pub content_length : Text → Option ℕ
unfolding content_length_here
content_length [] = none
content_length (c ∷ s) = elim (content_length_here (c ∷ s)) [
  | some n ↦ some n
  | none ↦ content_length s
]

-- `expected` is `none` for the source's -1, between frames.
pub record FrameParser : Type 0 where
  pub chunks : List Bytes
  pub buffered : ℕ
  pub expected : Option ℕ

abbrev pub init : FrameParser
init = record { chunks = []; buffered = 0; expected = none }

-- `Buffer.alloc(n)`, and `Buffer.concat(chunks, total)`: cut or filled with zeros to the total.
abbrev zeros : ℕ → Bytes
zeros zero = []
zeros (suc n) = 0 ∷ zeros n

unfoldable pub buffer_concat : List Bytes → ℕ → Bytes
buffer_concat chunks total = take total (concat chunks ++ zeros total)

pub merged : List Bytes → ℕ → Option Bytes × List Bytes
unfolding buffer_concat
merged [] buffered = (none, [])
merged (c ∷ []) buffered = (some c, c ∷ [])
merged (c ∷ d ∷ cs) buffered = let all = buffer_concat (c ∷ d ∷ cs) buffered in (some all, all ∷ [])

-- The merged buffer and the parser that holds it.
pub coalesce : FrameParser → Option Bytes × FrameParser
unfolding merged
coalesce p = let (head, chunks) = merged p.chunks p.buffered in (head, record p { chunks = chunks })

pub nonempty : Bytes → List Bytes
nonempty [] = []
nonempty (b ∷ bs) = (b ∷ bs) ∷ []

pub replace_with : FrameParser → Bytes → FrameParser
unfolding nonempty
replace_with p rest = record p { chunks = nonempty rest; buffered = length rest }

-- The copying loop of `take`; `none` when the chunks run out, where the source would throw.
pub fill : ℕ → List Bytes → Option (Bytes × List Bytes)
fill needed [] = if needed == 0 then some ([], []) else none
fill needed (c ∷ cs) =
    let rest = Option.map (λ r. (c ++ r.0, r.1)) (fill (needed - length c) cs) in
    if needed == 0
    then some ([], c ∷ cs)
    else if leb (length c) needed
    then rest
    else some (take needed c, drop needed c ∷ cs)

take_chunks : ℕ → List Bytes → Option (Bytes × List Bytes)
unfolding nonempty fill
take_chunks size [] = fill size []
take_chunks size (first ∷ cs) =
    if leb size (length first)
    then some (take size first, nonempty (drop size first) ++ cs)
    else fill size (first ∷ cs)

-- `take`: removes and returns the first `size` buffered bytes.
pub take_bytes : FrameParser → ℕ → Option (Bytes × FrameParser)
unfolding take_chunks
take_bytes p size =
    Option.map (λ r. (r.0, record p { chunks = r.1; buffered = p.buffered - size }))
      (take_chunks size p.chunks)

-- What the header part of the loop body does: leave the loop, skip a malformed header block, or go
-- on to the body with the expected size.
pub data Header : Type 0 where
  stop : FrameParser → Header
  malformed : FrameParser → Header
  ready : ℕ → FrameParser → Header

-- The chunk joins the buffered ones, unless it is empty.
received : FrameParser → Bytes → FrameParser
received p [] = p
received p (b ∷ bs) = record p {
  chunks = p.chunks ++ (b ∷ bs) ∷ [];
  buffered = p.buffered + length (b ∷ bs);
}

module _ (utf8 : Utf8) where
  expect : Option ℕ → FrameParser → Header
  expect none p = malformed p
  expect (some n) p = ready n (record p { expected = some n })

  split_header : Bytes → Option ℕ → FrameParser → Header
  unfolding expect replace_with
  split_header head none p = stop p
  split_header head (some i) p =
      expect (content_length (utf8.decode (take i head))) (replace_with p (drop (i + 4) head))

  scan_header : Option Bytes × FrameParser → Header
  unfolding split_header
  scan_header (none, p) = stop p
  scan_header (some head, p) = split_header head (index_of header_end head) p

  read_header_at : Option ℕ → FrameParser → Header
  unfolding scan_header coalesce
  read_header_at none p = scan_header (coalesce p)
  read_header_at (some n) p = ready n p

  pub read_header : FrameParser → Header
  unfolding read_header_at
  read_header p = read_header_at p.expected p

  -- One round of the loop `for (;;)` of `push`; `again` is the rounds that follow.
  deliver :
      (FrameParser → Option (List Text × FrameParser))
      → Option (Bytes × FrameParser)
      → Option (List Text × FrameParser)
  deliver again none = none
  deliver again (some (body, r)) =
      Option.map (λ s. (utf8.decode body ∷ s.0, s.1)) (again (record r { expected = none }))

  on_header :
      (FrameParser → Option (List Text × FrameParser)) → Header → Option (List Text × FrameParser)
  unfolding deliver
  on_header again (stop q) = some ([], q)
  on_header again (malformed q) = again q
  on_header again (ready n q) =
      let delivered = deliver again (take_bytes q n) in
      if ltb q.buffered n then some ([], q) else delivered

  pub drain : ℕ → FrameParser → Option (List Text × FrameParser)
  unfolding on_header
  drain zero p = none
  drain (suc fuel) p = on_header (drain fuel) (read_header p)

  -- Feeds raw bytes; returns the complete message payloads.
  pub push : FrameParser → Bytes → Option (List Text × FrameParser)
  unfolding received
  push p chunk = let q = received p chunk in drain (q.buffered + 2) q

  -- Feeds one chunk after the other.
  pub push_all : FrameParser → List Bytes → Option (List Text × FrameParser)
  push_all p [] = some ([], p)
  push_all p (c ∷ cs) = elim (push p c) [
    | none ↦ none
    | some (ms, q) ↦ Option.map (λ s. (ms ++ s.0, s.1)) (push_all q cs)
  ]

  -- Wraps one payload in a Content-Length header block.
  pub frame : Text → Bytes
  unfolding decimal
  frame payload =
      let body = utf8.encode payload in
      utf8.encode (codes "Content-Length: " ++ decimal (length body) ++ header_end) ++ body
