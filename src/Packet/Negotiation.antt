-- ===== src/Packet/Negotiation.antt =====
-- packets.go: Version Negotiation packets; connection.go: ProcessVersionNegotation and the fields
-- that TransitionTo resets.
use quic_tracker.Base.{
  ℕ, ◌+◌, ◌/◌, ◌^◌, ◌<◌, ◌≡◌, refl, ap, ◌∙◌, bit_and, List, [], ◌∷◌, ◌++◌, Bytes, length, All, done,
  panic, arith,
}
use quic_tracker.Base.Bits.{bit_and_80_7f, bit_and_f0, bit_and_0f}
use quic_tracker.Reader.{Parser, ◌>>=◌, big_endian, read_byte, read_full, read_full-append}
use quic_tracker.PacketNumber.{uint32_to_be_bytes}
use quic_tracker.Header.Cids.{IsCid, lengths, lengths_lem}
use quic_tracker.Header.Wire.{big_endian-uint32, length-uint32}
use quic_tracker.Header.Make.{Connection}

pub record VersionNegotiation : Type 0 where
  pub unused_field : ℕ
  pub version : ℕ
  pub destination_cid : Bytes
  pub source_cid : Bytes
  pub supported_versions : List ℕ

unfoldable pub new_version_negotiation : ℕ → ℕ → List ℕ → Connection → VersionNegotiation
new_version_negotiation unused version versions c = record {
  unused_field = unused;
  version = version;
  destination_cid = c.destination_cid;
  source_cid = c.source_cid;
  supported_versions = versions;
}

unfoldable pub encode_versions : List ℕ → Bytes
encode_versions [] = []
encode_versions (v ∷ rest) = uint32_to_be_bytes v ++ encode_versions rest

unfoldable pub encode_negotiation : VersionNegotiation → Bytes
unfolding encode_versions
encode_negotiation p =
    bit_and p.unused_field 0x80
    ∷ (uint32_to_be_bytes p.version
        ++ (lengths p.destination_cid p.source_cid
            ∷ (p.destination_cid ++ (p.source_cid ++ encode_versions p.supported_versions))))

-- Fewer than four bytes are used up by the read that ends the loop.
unfoldable pub read_versions : Bytes → List ℕ
read_versions (a ∷ b ∷ c ∷ d ∷ rest) = big_endian 0 (a ∷ b ∷ c ∷ d ∷ []) ∷ read_versions rest
read_versions _ = []

abbrev after_first_byte : ℕ → Parser VersionNegotiation
after_first_byte b = do
  version ← read_full 4
  cidls ← read_byte
  destination ← read_full (3 + bit_and cidls 0xf0 / 2 ^ 4)
  source ← read_full (3 + bit_and cidls 0x0f)
  (λ rest. done (
    record {
      unused_field = bit_and b 0x7f;
      version = big_endian 0 version;
      destination_cid = destination;
      source_cid = source;
      supported_versions = read_versions rest;
    },
    [],
  ))

-- It panics on an empty buffer.
unfoldable pub read_version_negotiation : Parser VersionNegotiation
unfolding read_versions
read_version_negotiation [] = panic
read_version_negotiation (b ∷ bs) = after_first_byte b bs

pub record IsNegotiation (p : VersionNegotiation) : Type 0 where
  pub unused : p.unused_field < 256
  pub version_fits : p.version < 2 ^ 32
  pub destination : IsCid p.destination_cid
  pub source : IsCid p.source_cid
  pub versions_fit : All (λ v. v < 2 ^ 32) p.supported_versions

read_versions-encode_versions :
    (vs : List ℕ) → All (λ v. v < 2 ^ 32) vs → read_versions (encode_versions vs) ≡ vs
unfolding read_versions encode_versions uint32_to_be_bytes
read_versions-encode_versions [] h = refl
read_versions-encode_versions (v ∷ vs) (h, hs) =
    ap (λ (w : ℕ). w ∷ read_versions (encode_versions vs)) (big_endian-uint32 v h)
    ∙ ap (◌∷◌ v) (read_versions-encode_versions vs hs)

read_from :
    (p : VersionNegotiation) (b ll : ℕ)
    → IsNegotiation p
    → bit_and b 0x7f ≡ 0
    → 3 + bit_and ll 0xf0 / 2 ^ 4 ≡ length p.destination_cid
    → 3 + bit_and ll 0x0f ≡ length p.source_cid
    → read_version_negotiation (
        b
        ∷ (uint32_to_be_bytes p.version
            ++ (ll
                ∷ (p.destination_cid ++ (p.source_cid ++ encode_versions p.supported_versions)))))
      ≡ done (record p { unused_field = 0 }, [])
unfolding read_version_negotiation
read_from p b ll v u d s = rw (
  ◌>>=◌,
  read_full-append 4 (uint32_to_be_bytes p.version)
      (ll ∷ (p.destination_cid ++ (p.source_cid ++ encode_versions p.supported_versions)))
      (length-uint32 p.version),
  d,
  read_full-append (length p.destination_cid) p.destination_cid
      (p.source_cid ++ encode_versions p.supported_versions) refl,
  s,
  read_full-append (length p.source_cid) p.source_cid (encode_versions p.supported_versions) refl,
  u,
  big_endian-uint32 p.version v.version_fits,
  read_versions-encode_versions p.supported_versions v.versions_fit,
)

-- A Version Negotiation packet whose connection ids have from 3 to 18 bytes is read back from the
-- bytes of EncodePayload with its versions in order, but for the unused field, which is read as 0.
pub read_version_negotiation-encode_negotiation :
    (p : VersionNegotiation)
    → IsNegotiation p
    → read_version_negotiation (encode_negotiation p) ≡ done (record p { unused_field = 0 }, [])
unfolding encode_negotiation
read_version_negotiation-encode_negotiation p v =
    let ll = lengths p.destination_cid p.source_cid in
    let l = lengths_lem p.destination_cid p.source_cid v.destination v.source in
    let small : ll < 256 = omega (arith, l, v.destination, v.source) in
    read_from p (bit_and p.unused_field 0x80) ll v (bit_and_80_7f p.unused_field v.unused)
      (omega (arith, l, v.destination, v.source, bit_and_f0 ll small))
      (omega (arith, l, v.destination, v.source, bit_and_0f ll small))
