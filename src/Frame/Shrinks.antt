-- ===== src/Frame/Shrinks.antt =====
-- frames.go: the reader of each frame takes at least a byte from a buffer that has one.
use quic_tracker.Base.{
  ℕ, zero, suc, bit_and, Bool, true, false, [], ◌∷◌, Bytes, length, ltb, ◌==◌, inl, inr, Bool-cases,
  arith,
}
use quic_tracker.Reader.{Parser, return, ◌>>=◌, read_byte, read, read_full, make_then_read}
use quic_tracker.Reader.Shrinks.{
  AtMost, Shrinks, bind-Shrinks, return-Shrinks, read-Shrinks, read_byte-Shrinks, read_full-Shrinks,
  make_then_read-Shrinks, AtMost-bind,
}
use quic_tracker.VarInt.{read_var_int_or_zero}
use quic_tracker.VarInt.Shrinks.{var_int-Shrinks, var_int-AtMost}
use quic_tracker.Frame.{
  Frame, padding, ping, ack, ack_ecn, reset_stream, stop_sending, crypto, new_token,
  new_connection_id, connection_close, application_close,
}
use quic_tracker.Frame.Read.{
  read_ack_blocks, read_ack_frame, read_stream_frame, read_reason, left, when, read_uint16,
  read_ack, read_ack_ecn, read_reset_stream, read_stop_sending, read_crypto, read_new_token,
  read_one, read_two, read_new_connection_id, read_connection_close, read_application_close,
  read_padding, read_ping,
}

-- A reader that takes a byte or more when there is one.
abbrev pub Takes {ℓ} : {A : Type ℓ} → Parser A → Type 0
Takes p = (b : ℕ) (bs : Bytes) → AtMost (length bs) (p (b ∷ bs))

read_uint16-Shrinks : Shrinks read_uint16
read_uint16-Shrinks = bind-Shrinks _ _ (read_full-Shrinks 2) (λ bs. return-Shrinks _)

read_ack_blocks-Shrinks : (n : ℕ) → Shrinks (read_ack_blocks n)
unfolding read_ack_blocks
read_ack_blocks-Shrinks zero = return-Shrinks []
read_ack_blocks-Shrinks (suc n) = bind-Shrinks _ _ var_int-Shrinks λ gap.
    bind-Shrinks _ _ var_int-Shrinks
      λ block. bind-Shrinks _ _ (read_ack_blocks-Shrinks n) λ rest. return-Shrinks _

after_byte {ℓ} :
    {A : Type ℓ} (f : ℕ → Parser A) → ((b : ℕ) → Shrinks (f b)) → Takes (read_byte >>= f)
after_byte f h b bs = (h b).at bs

after_var_int {ℓ} :
    {A : Type ℓ} (f : ℕ → Parser A) → ((b : ℕ) → Shrinks (f b)) → Takes (read_var_int_or_zero >>= f)
after_var_int f h b bs =
    AtMost-bind read_var_int_or_zero f (length bs) (b ∷ bs) (var_int-AtMost b bs) h

pub read_ack_frame-Takes : Takes read_ack_frame
unfolding read_ack_frame
read_ack_frame-Takes = after_byte _ λ b. bind-Shrinks _ _ var_int-Shrinks λ largest.
    bind-Shrinks _ _ var_int-Shrinks λ delay. bind-Shrinks _ _ var_int-Shrinks λ count.
      bind-Shrinks _ _ var_int-Shrinks
        λ first. bind-Shrinks _ _ (read_ack_blocks-Shrinks count) λ blocks. return-Shrinks _

left-Shrinks : Shrinks left
left-Shrinks = record { at = λ bs. omega arith }

when-Shrinks : (c : Bool) (p q : Parser ℕ) → Shrinks p → Shrinks q → Shrinks (when c p q)
when-Shrinks true p q hp hq = hp
when-Shrinks false p q hp hq = hq

opaque-Shrinks : (n : ℕ) → Shrinks (make_then_read n read)
opaque-Shrinks n = make_then_read-Shrinks n read (read-Shrinks n)

pub read_stream_frame-Takes : Takes read_stream_frame
unfolding read_stream_frame
read_stream_frame-Takes = after_byte _ λ b. bind-Shrinks _ _ var_int-Shrinks λ id.
    bind-Shrinks _ _ (when-Shrinks (bit_and b 0x04 == 0x04) _ _ var_int-Shrinks (return-Shrinks 0))
      λ offset.
        bind-Shrinks _ _ (when-Shrinks (bit_and b 0x02 == 0x02) _ _ var_int-Shrinks left-Shrinks)
          λ n. bind-Shrinks _ _ (opaque-Shrinks n) λ content. return-Shrinks (record {
            fin_bit = bit_and b 0x01 == 0x01;
            len_bit = bit_and b 0x02 == 0x02;
            off_bit = bit_and b 0x04 == 0x04;
            stream_id = id;
            offset = offset;
            length = n;
            stream_data = content;
          })

read_reason-Shrinks : (n : ℕ) → Shrinks (read_reason n)
unfolding read_reason
read_reason-Shrinks n = elim (Bool-cases (ltb 0 n)) [
  | inl e ↦ rw (read_reason, e) (make_then_read-Shrinks n read_full (read_full-Shrinks n))
  | inr e ↦ rw (read_reason, e) (return-Shrinks [])
]

pub read_padding-Takes : Takes read_padding
read_padding-Takes = after_byte _ λ b. return-Shrinks padding

pub read_ping-Takes : Takes read_ping
read_ping-Takes = after_byte _ λ b. return-Shrinks ping

pub read_one-Takes : (make : ℕ → Frame) → Takes (read_one make)
read_one-Takes make =
    after_byte _ λ b. bind-Shrinks _ _ var_int-Shrinks λ a. return-Shrinks (make a)

pub read_two-Takes : (make : ℕ → ℕ → Frame) → Takes (read_two make)
read_two-Takes make = after_byte _ λ b.
    bind-Shrinks _ _ var_int-Shrinks
      λ a. bind-Shrinks _ _ var_int-Shrinks λ c. return-Shrinks (make a c)

pub read_eight-Takes :
    (make : Bytes → Frame) → Takes (do _ ← read_byte; d ← read 8; return (make d))
read_eight-Takes make =
    after_byte _ λ b. bind-Shrinks _ _ (read-Shrinks 8) λ d. return-Shrinks (make d)

pub read_ack-Takes : Takes read_ack
read_ack-Takes b bs =
    AtMost-bind read_ack_frame _ (length bs) (b ∷ bs) (read_ack_frame-Takes b bs)
      λ f. return-Shrinks (ack f)

pub read_ack_ecn-Takes : Takes read_ack_ecn
read_ack_ecn-Takes b bs =
    AtMost-bind read_ack_frame _ (length bs) (b ∷ bs) (read_ack_frame-Takes b bs) λ f.
      bind-Shrinks _ _ var_int-Shrinks λ ect0.
        bind-Shrinks _ _ var_int-Shrinks λ ect1.
          bind-Shrinks _ _ var_int-Shrinks λ ectce. return-Shrinks (ack_ecn f ect0 ect1 ectce)

pub read_reset_stream-Takes : Takes read_reset_stream
read_reset_stream-Takes = after_byte _ λ b. bind-Shrinks _ _ var_int-Shrinks λ id.
    bind-Shrinks _ _ read_uint16-Shrinks
      λ code. bind-Shrinks _ _ var_int-Shrinks λ final. return-Shrinks (reset_stream id code final)

pub read_stop_sending-Takes : Takes read_stop_sending
read_stop_sending-Takes = after_byte _ λ b.
    bind-Shrinks _ _ var_int-Shrinks
      λ id. bind-Shrinks _ _ read_uint16-Shrinks λ code. return-Shrinks (stop_sending id code)

pub read_crypto-Takes : Takes read_crypto
read_crypto-Takes = after_var_int _ λ t. bind-Shrinks _ _ var_int-Shrinks λ offset.
    bind-Shrinks _ _ var_int-Shrinks
      λ n. bind-Shrinks _ _ (opaque-Shrinks n) λ content. return-Shrinks (crypto offset n content)

pub read_new_token-Takes : Takes read_new_token
read_new_token-Takes = after_var_int _ λ t.
    bind-Shrinks _ _ var_int-Shrinks
      λ n. bind-Shrinks _ _ (opaque-Shrinks n) λ token. return-Shrinks (new_token token)

pub read_new_connection_id-Takes : Takes read_new_connection_id
read_new_connection_id-Takes = after_byte _ λ b. bind-Shrinks _ _ var_int-Shrinks λ sequence.
    bind-Shrinks _ _ read_byte-Shrinks λ n. bind-Shrinks _ _ (opaque-Shrinks n) λ id.
      bind-Shrinks _ _ (read_full-Shrinks 16)
        λ token. return-Shrinks (new_connection_id sequence n id token)

pub read_connection_close-Takes : Takes read_connection_close
read_connection_close-Takes = after_byte _ λ b. bind-Shrinks _ _ read_uint16-Shrinks λ code.
    bind-Shrinks _ _ var_int-Shrinks λ t. bind-Shrinks _ _ var_int-Shrinks λ n.
      bind-Shrinks _ _ (read_reason-Shrinks n)
        λ phrase. return-Shrinks (connection_close code t n phrase)

pub read_application_close-Takes : Takes read_application_close
read_application_close-Takes = after_byte _ λ b. bind-Shrinks _ _ read_uint16-Shrinks λ code.
    bind-Shrinks _ _ var_int-Shrinks λ n.
      bind-Shrinks _ _ (read_reason-Shrinks n)
        λ phrase. return-Shrinks (application_close code n phrase)
