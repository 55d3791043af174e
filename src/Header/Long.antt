-- ===== src/Header/Long.antt =====
-- headers.go: Encode, HeaderLength and ReadLongHeader of a long header.
use quic_tracker.Base.{ℕ, refl, bit_and, ◌==◌, true, ◌∷◌, ◌≡◌, ◌++◌, Bytes, length, done}
use quic_tracker.Reader.{◌>>=◌}
use quic_tracker.Packet.{PnSpace}
use quic_tracker.Header.Cids.{lengths}
use quic_tracker.Header.{
  LongHeader, long, read_header, type_byte, encode_long, header_length, read_long_header,
}
use quic_tracker.Header.Wire.{
  IsWritableHeader, received, read_from, header_bytes, encode_long-header_bytes,
  header_length-length, wire_from-append, type_byte-IsTypeByte, type_byte-low, lengths-IsLengths,
}

pub read_long_header-header_bytes :
    (h : LongHeader) (largest : PnSpace → ℕ) (rest : Bytes)
    → IsWritableHeader h
    → read_long_header largest (header_bytes h ++ rest) ≡ done (received largest h, rest)
read_long_header-header_bytes h largest rest v =
    let ll = lengths h.destination_cid h.source_cid in
    let e =
      read_from h largest (type_byte h) ll rest v (type_byte-IsTypeByte h v)
        (lengths-IsLengths h v) in
    rw (wire_from-append h rest, type_byte-low h v) at e

pub read_header-long :
    (n : ℕ) (largest : PnSpace → ℕ) (b : ℕ) (bs : Bytes) {h : LongHeader} {left : Bytes}
    → (bit_and b 0x80 == 0x80) ≡ true
    → read_long_header largest (b ∷ bs) ≡ done (h, left)
    → read_header n largest (b ∷ bs) ≡ done (long h, left)
unfolding read_header
read_header-long n largest b bs {h} {left} top e = rw (read_header, top, ◌>>=◌, e) refl

-- A header of a type other than Retry, with connection ids of 3 to 18 bytes, a version and lengths
-- that fit and lengths that are those of their encodings: Encode returns bytes without a panic,
-- HeaderLength is their number, and ReadLongHeader reads the header back from them, whatever
-- follows. A token is read only in an Initial packet, the lower bits are those of the first byte,
-- and the packet number is the truncated one joined to the largest number received in its space.
pub read_long_header-encode_long :
    (h : LongHeader) (largest : PnSpace → ℕ) (rest : Bytes)
    → IsWritableHeader h
    → (bs : Bytes) × (encode_long h ≡ done bs)
      × (read_long_header largest (bs ++ rest) ≡ done (received largest h, rest))
      × (header_length h ≡ length bs)
read_long_header-encode_long h largest rest v = (
  header_bytes h,
  encode_long-header_bytes h v,
  read_long_header-header_bytes h largest rest v,
  header_length-length h v,
)
