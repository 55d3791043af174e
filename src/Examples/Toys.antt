-- ===== src/Examples/Toys.antt =====
-- Keys, headers and frames for the theorems on packets at concrete inputs.
use quic_tracker.Base.{
  ℕ, zero, suc, ◌<◌, ap, ◌-◌, ◌≡◌, refl, List, [], ◌∷◌, ◌++◌, Bytes, length, length-append, take,
  take-append, replicate, All-append, some, inl, inr, arith,
}
use quic_tracker.VarInt.RoundTrip.{encoding_len, encoding}
use quic_tracker.Frame.{Frame, ping, crypto}
use quic_tracker.Frame.Wire.{wire}
use quic_tracker.Crypto.{Aead, CryptoState}
use quic_tracker.Header.{LongHeader}
use quic_tracker.VarInt.Value.{no_var_int}
use quic_tracker.Packet.{handshake}
use quic_tracker.Protection.Mask.{AreBytes, MakesMasks}
use quic_tracker.Connection.Sealed.{IsAead, IsSendable}

-- A tag of sixteen bytes after the payload.
abbrev pub tag : Bytes
tag = replicate 16 7

abbrev pub toy_aead : Aead
toy_aead = record {
  overhead = 16;
  encrypt = λ p n h. p ++ tag;
  decrypt = λ c n h. some (take (length c - 16) c);
}

toy_aead-opens : (p : Bytes) → take (length (p ++ tag) - 16) (p ++ tag) ≡ p
toy_aead-opens p =
    let e : length (p ++ tag) - 16 ≡ length p = omega (arith, length-append p tag) in
    rw e (take-append p tag)

replicate-AreBytes : (n b : ℕ) → b < 256 → AreBytes (replicate n b)
replicate-AreBytes zero b h = tt
replicate-AreBytes (suc n) b h = (h, replicate-AreBytes n b h)

pub toy_aead-IsAead : IsAead toy_aead
toy_aead-IsAead = record {
  opens = λ p h n. ap some (toy_aead-opens p);
  grows = λ p h n. length-append p tag;
  makes_bytes =
      λ p h n small. All-append (λ x. x < 256) p tag small (replicate-AreBytes 16 7 (omega arith));
}

abbrev pub toy_cipher : Bytes → Bytes
toy_cipher s = 17 ∷ 34 ∷ 51 ∷ 68 ∷ 85 ∷ []

pub toy_cipher-MakesMasks : MakesMasks toy_cipher
toy_cipher-MakesMasks s =
    (refl, (omega arith, (omega arith, (omega arith, (omega arith, (omega arith, tt))))))

abbrev pub toy_keys : CryptoState
toy_keys = record {
  read = some toy_aead;
  write = some toy_aead;
  header_read = some toy_cipher;
  header_write = some toy_cipher;
}

abbrev pub hello : List Frame
hello = crypto 0 3 (1 ∷ 2 ∷ 3 ∷ []) ∷ ping ∷ []

abbrev pub hello_header : LongHeader
hello_header = record {
  packet_type = 2;
  lower_bits = 0;
  version = 0xff000011;
  destination_cid = 5 ∷ 6 ∷ 7 ∷ 8 ∷ [];
  source_cid = 1 ∷ 2 ∷ 3 ∷ 4 ∷ [];
  token_length = record { value = 0; length = 1 };
  token = [];
  payload_length = no_var_int;
  packet_number = 3;
  truncated_pn = record { value = 3; length = 1 };
}

pub hello-IsSendable : IsSendable toy_aead handshake hello_header hello
unfolding wire encoding encoding_len
hello-IsSendable = record {
  kind = inr (refl, refl);
  payload = ((omega arith, refl, omega arith), tt, (tt, tt, tt));
  payload_bytes = (
    omega arith,
    (omega arith, (omega arith, (omega arith, (omega arith, (omega arith, (omega arith, tt)))))),
  );
  header = record {
    kind = omega arith;
    version_fits = omega arith;
    destination = (omega arith, omega arith);
    source = (omega arith, omega arith);
    token_fits = (refl, omega arith);
    token_encoded = (omega arith, refl);
    payload_encoded = (omega arith, refl);
    number_length = inl (inl refl);
    number_fits = omega arith;
  };
  fits = omega arith;
  room = omega arith;
  versioned = refl;
}

abbrev pub first_header : LongHeader
first_header = record hello_header {
  packet_type = 0;
  truncated_pn = record { value = 0; length = 1 };
  packet_number = 0;
}
