-- ===== src/Crypto.antt =====
-- crypto.go: the keys of an encryption level. The authenticated encryption and the cipher that makes
-- header masks are those of the TLS library, whose functions are fields here.
use quic_tracker.Base.{ℕ, Bytes, Option}

-- `encrypt payload number header`, and `decrypt`, which gives `none` for a nil slice.
pub record Aead : Type 0 where
  pub overhead : ℕ
  pub encrypt : Bytes → ℕ → Bytes → Bytes
  pub decrypt : Bytes → ℕ → Bytes → Option Bytes

-- A key that is not there is nil.
pub record CryptoState : Type 0 where
  pub read : Option Aead
  pub write : Option Aead
  pub header_read : Option (Bytes → Bytes)
  pub header_write : Option (Bytes → Bytes)
