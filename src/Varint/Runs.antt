-- ===== src/Varint/Runs.antt =====
-- The codecs on fixed values.
use moq_web.Base.{◌≤◌, ◌≡◌, refl, [], ◌∷◌, ok, arith}
use moq_web.Base.Bytes.{join_be, bytes_from}
use moq_web.Varint.Moqt
use moq_web.Varint.Moqt.RoundTrip.{decode-encode_moqt}
use moq_web.Varint.Moqt.Bounds.{encode_shortest_moqt}
use moq_web.Varint.Quic
use moq_web.Varint.Quic.RoundTrip.{decode-encode}

decode-encode_moqt_example : Moqt.decode (9 ∷ 0x81 ∷ 0x2c ∷ 5 ∷ []) 1 ≡ ok (300, 2)
unfolding Moqt.encode Moqt.encoded_length
decode-encode_moqt_example = decode-encode_moqt 300 (9 ∷ []) (5 ∷ []) (0x81 ∷ 0x2c ∷ []) refl

-- A value written in more bytes than it needs.
encode_shortest_moqt_example : 1 ≤ 2
unfolding Moqt.encode Moqt.decode Moqt.encoded_length join_be bytes_from
encode_shortest_moqt_example =
    encode_shortest_moqt 5 2 0 (5 ∷ []) (0x80 ∷ 5 ∷ []) refl (omega arith, (omega arith, tt)) refl

decode-encode_example : Quic.decode (9 ∷ 0x41 ∷ 0x2c ∷ 5 ∷ []) 1 ≡ ok (300, 2)
unfolding Quic.encode Quic.encoded_length
decode-encode_example = decode-encode 300 (9 ∷ []) (5 ∷ []) (0x41 ∷ 0x2c ∷ []) refl
