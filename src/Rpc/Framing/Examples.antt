-- ===== src/Rpc/Framing/Examples.antt =====
-- Instances of the framing theorems, and runs of the parser.
use gitglasses.Base.{concat, is_space, codes, Text, List, refl, [], ◌∷◌, none, some, ◌++◌, ◌≡◌}
use gitglasses.Rpc.Framing.{
  is_well_formed, push_all, content_length, take_bytes, read_header, init, header_end, index_of,
  drain, FrameParser, Bytes, push, frame, Utf8,
}
use gitglasses.Base.Decimal.{decimal}
use gitglasses.Rpc.Framing.Stream.{feed, Runs, advance}
use gitglasses.Rpc.Framing.Buffers.{view, IsCounted}
use gitglasses.Rpc.Framing.Refines.{push_all-push, push_reads}
use gitglasses.Rpc.Framing.RoundTrip.{frames_round_trip}

ascii_encode : Text → Bytes
ascii_encode t = t

-- The identity, which is UTF-8 on ASCII text and has the laws asked of it.
abbrev identity_codec : Utf8
unfolding ascii_encode
identity_codec = record {
  encode = ascii_encode;
  decode = λ bs. bs;
  decode-encode = λ t w. refl;
  encode_ascii = λ t a. refl;
}

abbrev two_payloads : List Text
two_payloads = codes "hi" ∷ codes "there" ∷ []

-- The second chunk begins inside the first header.
abbrev stream_of : List Bytes
stream_of =
    codes "Content-Le"
    ∷ (codes "ngth: 2" ++ (header_end ++ codes "hiContent-Length: 5"))
    ∷ (header_end ++ codes "th")
    ∷ codes "ere"
    ∷ []

frames_round_trip_example :
    (q : FrameParser) × (push_all identity_codec init stream_of ≡ some (two_payloads, q))
    × (view q ≡ record { bytes = []; awaiting = none })
unfolding frame ascii_encode decimal
frames_round_trip_example =
    frames_round_trip identity_codec two_payloads stream_of
      (unfold is_well_formed in (refl, (refl, tt))) refl

push_reads_example :
    (ms : List Text) × (q : FrameParser) × (push identity_codec init (codes "Content-Length: 2")
      ≡ some (ms, q))
    × IsCounted q
    × Runs identity_codec (view q) (feed (view init) (codes "Content-Length: 2")) ms
    × (advance identity_codec (view q) ≡ none)
push_reads_example = push_reads identity_codec init (codes "Content-Length: 2") refl

push_all-push_example :
    (ms : List Text) × (q r : FrameParser) × (push_all identity_codec init stream_of ≡ some (ms, q))
    × (push identity_codec init (concat stream_of) ≡ some (ms, r))
    × (view q ≡ view r)
unfolding advance index_of
push_all-push_example = push_all-push identity_codec init stream_of refl refl

-- The name of the header is matched in either case, and a block without it is skipped.
push_runs :
    push identity_codec init (
      codes "X-Other: 1"
      ++ (header_end ++ (codes "content-LENGTH:2" ++ (header_end ++ codes "ok"))))
    ≡ some (codes "ok" ∷ [], init)
unfolding push drain read_header take_bytes content_length index_of is_space ascii_encode
push_runs = refl
