-- ===== src/ParseAgent/Ends.antt =====
-- agents/parse_agent.go: the loop over a datagram comes to an end.
use quic_tracker.Base.{
  ℕ, zero, suc, ◌+◌, ◌-◌, ◌≤◌, ◌<◌, ◌≡◌, refl, ap, ◌==◌, ltb, ◌||◌, [], ◌∷◌, ◌++◌, Bytes, length,
  length-drop, drop, Option, none, some, Outcome, done, panic, arith, Bool-cases, false, inl, inr,
}
use quic_tracker.Base.Outcomes.{Returns, bind-Returns, Returns-any, if-Returns}
use quic_tracker.Crypto.{Aead}
use quic_tracker.Header.{Header, LongHeader, long, short, header_length, read_header}
use quic_tracker.Header
use quic_tracker.Header.Methods.{packet_type, length_of, level_of}
use quic_tracker.Packet.{Kind, initial, handshake, protected}
use quic_tracker.Packet.Negotiation.{read_version_negotiation}
use quic_tracker.Packet.Retry.{read_retry_packet}
use quic_tracker.Packet.Incoming.{read_frame_packet}
use quic_tracker.Protection.{number_offset, mask_at, put_first, unprotect}
use quic_tracker.ParseAgent.{
  Agent, Round, read_cleartext, open_long, open_short, open_retry, open_packet, open_protected,
  open_negotiation, open_with, is_negotiation, is_masked_type, read_keys, round, after_round,
  parse_from, parse_datagram,
}

-- What a round leaves, if it goes on, is shorter than n bytes.
abbrev pub Leaves : ℕ → Round → Type 0
Leaves n (none, s) = Unit
Leaves n (some rest, s) = length rest < n

read_cleartext-Leaves :
    (k : Kind) (header rest : Bytes) (o : Option Bytes) (s : Agent) (n : ℕ)
    → length rest < n
    → Returns (Leaves n) (read_cleartext k header rest o s)
unfolding read_cleartext
read_cleartext-Leaves k header rest none s n lt = tt
read_cleartext-Leaves k header rest (some payload) s n lt =
    bind-Returns _ _ (read_frame_packet k s.receiver (header ++ payload)) _ (Returns-any _)
      λ r _. lt

header_length-ge : (h : LongHeader) → h.truncated_pn.length + 1 ≤ header_length h
unfolding header_length
header_length-ge h = omega arith

left_after :
    (total : ℕ) (bs : Bytes)
    → 1 ≤ total
    → ltb (length bs) total ≡ false
    → length (drop total bs) < length bs
left_after total bs le h = ground (arith, length-drop total bs)

open_long-Leaves :
    (aead : Aead) (k : Kind) (h : LongHeader) (bs : Bytes) (s : Agent)
    → Returns (Leaves (length bs)) (open_long aead k h bs s)
unfolding open_long length_of
open_long-Leaves aead k h bs s =
    let total = header_length h + h.payload_length.value - h.truncated_pn.length in
    elim (Bool-cases (ltb (length bs) total)) [
      | inl e ↦ rw e tt
      | inr e ↦ rw e (
          if-Returns (Leaves (length bs)) (ltb h.payload_length.value h.truncated_pn.length) _ _ tt
            (read_cleartext-Leaves k _ (drop total bs) _ s (length bs)
              (left_after total bs (omega (arith, header_length-ge h)) e)))
    ]

open_short-Leaves :
    (aead : Aead) (h : Header) (b : ℕ) (bs : Bytes) (s : Agent)
    → Returns (Leaves (suc (length bs))) (open_short aead h (b ∷ bs) s)
unfolding open_short
open_short-Leaves aead h b bs s =
    if-Returns (Leaves (suc (length bs))) (ltb (suc (length bs)) (length_of h)) _ _ tt
      (read_cleartext-Leaves protected _ [] _ s (suc (length bs)) (omega arith))

open_retry-Leaves : (n : ℕ) (bs : Bytes) (s : Agent) → Returns (Leaves (suc n)) (open_retry bs s)
unfolding open_retry
open_retry-Leaves n bs s =
    bind-Returns _ _ (read_retry_packet s.receiver.largest_pns_received bs) _ (Returns-any _)
      λ r _. omega arith

open_packet-Leaves :
    (aead : Option Aead) (h : Header) (b : ℕ) (bs : Bytes) (s : Agent)
    → Returns (Leaves (suc (length bs))) (open_packet aead h (b ∷ bs) s)
unfolding open_packet
open_packet-Leaves (some a) (long h) b bs s =
    let P = Leaves (suc (length bs)) in
    if-Returns P (h.packet_type == Header.initial) _ _ (open_long-Leaves a initial h (b ∷ bs) s) (
      if-Returns P (h.packet_type == Header.handshake) _ _
        (open_long-Leaves a handshake h (b ∷ bs) s)
        (if-Returns P (h.packet_type == Header.retry) _ _ (open_retry-Leaves (length bs) (b ∷ bs) s)
          tt))
open_packet-Leaves none (long h) b bs s =
    let P = Leaves (suc (length bs)) in
    if-Returns P ((h.packet_type == Header.initial) || (h.packet_type == Header.handshake)) _ _ tt (
      if-Returns P (h.packet_type == Header.retry) _ _ (open_retry-Leaves (length bs) (b ∷ bs) s)
        tt)
open_packet-Leaves (some a) (short h) b bs s = open_short-Leaves a (short h) b bs s
open_packet-Leaves none (short h) b bs s = tt

-- Masking keeps the length.
abbrev pub IsOfLength : ℕ → Bytes → Type 0
IsOfLength n bs = length bs ≡ n

put_first-length :
    (b n : ℕ) (o : Outcome Bytes)
    → Returns (IsOfLength n) o
    → Returns (IsOfLength (suc n)) (put_first b o)
put_first-length b n o h = bind-Returns _ _ o _ h λ r e. ap suc e

mask_at-length : (k : ℕ) (ms bs : Bytes) → Returns (IsOfLength (length bs)) (mask_at k ms bs)
unfolding mask_at
mask_at-length zero [] bs = refl
mask_at-length zero (m ∷ ms) [] = tt
mask_at-length zero (m ∷ ms) (b ∷ bs) = put_first-length _ (length bs) _ (mask_at-length zero ms bs)
mask_at-length (suc k) ms [] = tt
mask_at-length (suc k) ms (b ∷ bs) = put_first-length _ (length bs) _ (mask_at-length k ms bs)

unprotect-length :
    (cipher : Bytes → Bytes) (offset : ℕ) (bs : Bytes)
    → Returns (IsOfLength (length bs)) (unprotect cipher offset bs)
unfolding unprotect
unprotect-length cipher offset [] = tt
unprotect-length cipher offset (b ∷ bs) = put_first-length _ (length bs) _ (mask_at-length _ _ bs)

opened :
    (aead : Option Aead) (h : Header) (bs : Bytes) (s : Agent) (n : ℕ)
    → length bs ≡ suc n
    → Returns (Leaves (suc n)) (open_packet aead h bs s)
opened aead h [] s n e = absurd (omega (arith, e))
opened aead h (b ∷ bs) s n e =
    let same : length bs ≡ n = omega (arith, e) in rw same at (open_packet-Leaves aead h b bs s)

open_protected-Leaves :
    (aead : Option Aead) (cipher : Option (Bytes → Bytes)) (h : Header) (b : ℕ) (bs : Bytes)
    (s : Agent)
    → Returns (Leaves (suc (length bs))) (open_protected aead cipher h (b ∷ bs) s)
unfolding open_protected
open_protected-Leaves (some a) (some c) h b bs s =
    bind-Returns _ _ (unprotect c (number_offset h) (b ∷ bs)) _
      (unprotect-length c (number_offset h) (b ∷ bs))
      λ clear e.
        bind-Returns _ _
          (read_header s.receiver.source_cid_length s.receiver.largest_pns_received clear) _
          (Returns-any _) λ r _. opened (some a) r.0 clear s (length bs) e
open_protected-Leaves (some a) none h b bs s = tt
open_protected-Leaves none c h b bs s = tt

open_with-Leaves :
    (h : Header) (b : ℕ) (bs : Bytes) (s : Agent)
    → Returns (Leaves (suc (length bs))) (open_with h (b ∷ bs) s)
unfolding open_with open_negotiation
open_with-Leaves h b bs s =
    let P = Leaves (suc (length bs)) in
    let keys = read_keys (s.crypto_states (level_of (packet_type h))) in
    if-Returns P (is_negotiation h) _ _
      (bind-Returns _ _ (read_version_negotiation (b ∷ bs)) _ (Returns-any _) λ r _. tt)
      (if-Returns P (is_masked_type (packet_type h)) _ _
        (open_protected-Leaves keys.0 keys.1 h b bs s) (open_packet-Leaves keys.0 h b bs s))

round-Leaves :
    (b : ℕ) (bs : Bytes) (s : Agent) → Returns (Leaves (suc (length bs))) (round (b ∷ bs) s)
unfolding round
round-Leaves b bs s =
    bind-Returns _ _
      (read_header s.receiver.source_cid_length s.receiver.largest_pns_received (b ∷ bs)) _
      (Returns-any _) λ r _. open_with-Leaves r.0 b bs s

after_round-ends :
    (go : Bytes → Agent → Option (Outcome Agent)) (n : ℕ) (o : Outcome Round)
    → Returns (Leaves n) o
    → ((bs : Bytes) (s : Agent) → length bs < n → (p : Outcome Agent) × (go bs s ≡ some p))
    → (p : Outcome Agent) × (after_round go o ≡ some p)
unfolding after_round
after_round-ends go n panic h k = (panic, refl)
after_round-ends go n (done (none, s)) h k = (done s, refl)
after_round-ends go n (done (some rest, s)) h k = k rest s h

parse_from-ends :
    (n : ℕ) (bs : Bytes) (s : Agent)
    → length bs ≤ n
    → (o : Outcome Agent) × (parse_from n bs s ≡ some o)
unfolding parse_from
parse_from-ends n [] s le = (done s, refl)
parse_from-ends zero (b ∷ bs) s le = absurd (omega (arith, le))
parse_from-ends (suc n) (b ∷ bs) s le =
    after_round-ends (parse_from n) (suc (length bs)) (round (b ∷ bs) s) (round-Leaves b bs s)
      λ rest s' lt. parse_from-ends n rest s' (omega (arith, lt, le))

-- On any datagram and in any state of the connection, whatever the keys do: the parsing agent's
-- loop ends, with the packets submitted or with a panic, since every round that goes on moves the
-- offset by a byte or more.
pub parse_datagram-ends :
    (bs : Bytes) (s : Agent) → (o : Outcome Agent) × (parse_datagram bs s ≡ some o)
unfolding parse_datagram
parse_datagram-ends bs s = parse_from-ends (length bs) bs s (omega arith)
