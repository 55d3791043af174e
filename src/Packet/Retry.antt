-- ===== src/Packet/Retry.antt =====
-- packets.go: Retry packets.
use quic_tracker.Base.{ℕ, ◌+◌, ◌%◌, [], ◌∷◌, ◌++◌, Bytes, length, bit_and, ltb, if◌then◌else◌, done}
use quic_tracker.Reader.{Parser, ◌>>=◌, read}
use quic_tracker.Header.{LongHeader, read_long_header}
use quic_tracker.Packet.{PnSpace}

pub record RetryPacket : Type 0 where
  pub header : LongHeader
  pub original_destination_cid : Bytes
  pub retry_token : Bytes

abbrev cid_length : ℕ → ℕ
cid_length n = if ltb 0 n then n + 3 else n

-- `RetryToken` is what is left of the buffer.
unfoldable pub read_retry_packet : (PnSpace → ℕ) → Parser RetryPacket
read_retry_packet largest = do
  h ← read_long_header largest
  original ← read (cid_length (bit_and h.lower_bits 0x0f))
  (λ token.
      done (record { header = h; original_destination_cid = original; retry_token = token }, []))

unfoldable pub encode_retry : RetryPacket → Bytes
encode_retry p =
    length p.original_destination_cid % 256 ∷ (p.original_destination_cid ++ p.retry_token)
