-- ===== src/Protection.antt =====
-- connection.go, SendPacket, and agents/parse_agent.go: the mask on the first byte of a packet and
-- on its packet number; crypto.go: GetPacketSample. A packet has its payload encrypted already.
pub mod Mask
use quic_tracker.Base.{
  ℕ, zero, suc, ◌+◌, ◌-◌, ◌≤◌, ◌<◌, ◌≡◌, refl, ap, ◌∙◌, bit_and, bit_xor, Bool, true, false, [],
  ◌∷◌, ◌++◌, Bytes, length, take, drop, length-take, replicate, All, ◌==◌, if◌then◌else◌, Outcome,
  done, panic, arith,
}
use quic_tracker.Base.Bits.{
  bit_and_03, xor_twice, xor_0f_top, xor_1f_top, xor_0f_twice, xor_1f_twice,
}
use quic_tracker.Base.Outcomes.{◌>>=◌}
use quic_tracker.Header.{Header, long, short, header_length}

-- `pnOffset` in GetPacketSample.
unfoldable pub number_offset : Header → ℕ
number_offset (long h) = header_length h - h.truncated_pn.length
number_offset (short h) = 1 + length h.destination_cid

-- A packet that is too short is padded with zeros.
unfoldable pub packet_sample : ℕ → Bytes → Bytes
packet_sample offset packet =
    take 16 (drop (offset + 4) (packet ++ replicate (offset + 20 - length packet) 0))

abbrev pub put_first : ℕ → Outcome Bytes → Outcome Bytes
put_first b o = o >>= λ rest. done (b ∷ rest)

-- `packet[offset+i] ^= mask[i]` for the bytes of the mask, one or more.
unfoldable pub mask_at : ℕ → Bytes → Bytes → Outcome Bytes
mask_at zero [] bs = done bs
mask_at zero (m ∷ ms) [] = panic
mask_at zero (m ∷ ms) (b ∷ bs) = put_first (bit_xor b m) (mask_at zero ms bs)
mask_at (suc k) ms [] = panic
mask_at (suc k) ms (b ∷ bs) = put_first b (mask_at k ms bs)

abbrev pub masked_first : Bool → ℕ → ℕ → ℕ
masked_first is_long b m = bit_xor b (if is_long then bit_and m 0x0F else bit_and m 0x1F)

-- The mask has the five bytes that the cipher makes of a sample.
abbrev pub number_mask : ℕ → Bytes → Bytes
number_mask n mask = take n (drop 1 mask)

abbrev pub first_of : Bytes → ℕ
first_of [] = 0
first_of (m ∷ ms) = m

-- SendPacket masks a packet whose packet number has n bytes at `offset`, which is not 0.
unfoldable pub protect : (Bytes → Bytes) → Bool → ℕ → ℕ → Bytes → Outcome Bytes
protect cipher is_long offset n [] = panic
protect cipher is_long offset n (b ∷ bs) =
    let mask = cipher (packet_sample offset (b ∷ bs)) in
    put_first (masked_first is_long b (first_of mask))
      (mask_at (offset - 1) (number_mask n mask) bs)

-- The parsing agent takes the form of the header from the first byte, and the length of the packet
-- number from the first byte when it has been unmasked.
unfoldable pub unprotect : (Bytes → Bytes) → ℕ → Bytes → Outcome Bytes
unprotect cipher offset [] = panic
unprotect cipher offset (b ∷ bs) =
    let mask = cipher (packet_sample offset (b ∷ bs)) in
    let first = masked_first (bit_and b 0x80 == 0x80) b (first_of mask) in
    put_first first (mask_at (offset - 1) (number_mask (bit_and first 0x3 + 1) mask) bs)

-- What masking leaves: bytes that the same mask turns back, and all that comes after them.
record IsMasked (k : ℕ) (ms bs cs : Bytes) : Type 0 where
  masks : mask_at k ms bs ≡ done cs
  unmasks : mask_at k ms cs ≡ done bs
  same_length : length cs ≡ length bs
  same_after : (d : ℕ) → k + length ms ≤ d → drop d cs ≡ drop d bs

-- One byte before the rest.
cons-IsMasked :
    (k j : ℕ) (ms ms' bs cs : Bytes) (b c : ℕ)
    → IsMasked k ms bs cs
    → mask_at j ms' (b ∷ bs) ≡ put_first c (mask_at k ms bs)
    → mask_at j ms' (c ∷ cs) ≡ put_first b (mask_at k ms cs)
    → j + length ms' ≡ suc (k + length ms)
    → IsMasked j ms' (b ∷ bs) (c ∷ cs)
cons-IsMasked k j ms ms' bs cs b c i there back e = record {
  masks = there ∙ ap (put_first c) i.masks;
  unmasks = back ∙ ap (put_first b) i.unmasks;
  same_length = omega (arith, i.same_length);
  same_after = λ d le. after d (omega (arith, e, le));
}
  where
    after : (d : ℕ) → suc (k + length ms) ≤ d → drop d (c ∷ cs) ≡ drop d (b ∷ bs)
    after zero le = absurd (omega (arith, le))
    after (suc d) le = i.same_after d (omega (arith, le))

mask_at-IsMasked :
    (k : ℕ) (ms bs : Bytes)
    → k + length ms ≤ length bs
    → All (λ m. m < 256) ms
    → All (λ b. b < 256) bs
    → (cs : Bytes) × IsMasked k ms bs cs
unfolding mask_at
mask_at-IsMasked zero [] bs le hm hb =
    (bs, record { masks = refl; unmasks = refl; same_length = refl; same_after = λ d le. refl })
mask_at-IsMasked zero (m ∷ ms) [] le hm hb = absurd (omega (arith, le))
mask_at-IsMasked zero (m ∷ ms) (b ∷ bs) le (h, hm) (hb, hbs) =
    let (cs, i) = mask_at-IsMasked zero ms bs (omega (arith, le)) hm hbs in
    (
      bit_xor b m ∷ cs,
      cons-IsMasked zero zero ms (m ∷ ms) bs cs b (bit_xor b m) i refl
          (ap (λ (x : ℕ). put_first x (mask_at zero ms cs)) (xor_twice m b h hb)) (omega arith),
    )
mask_at-IsMasked (suc k) ms [] le hm hb = absurd (omega (arith, le))
mask_at-IsMasked (suc k) ms (b ∷ bs) le hm (hb, hbs) =
    let (cs, i) = mask_at-IsMasked k ms bs (omega (arith, le)) hm hbs in
    (b ∷ cs, cons-IsMasked k (suc k) ms ms bs cs b b i refl refl (omega arith))

drop-padded :
    (d : ℕ) (xs ys zs : Bytes)
    → length xs ≡ length ys
    → drop d xs ≡ drop d ys
    → drop d (xs ++ zs) ≡ drop d (ys ++ zs)
drop-padded zero xs ys zs e h = ap (λ (l : Bytes). l ++ zs) h
drop-padded (suc d) [] [] zs e h = refl
drop-padded (suc d) [] (y ∷ ys) zs e h = absurd (omega (arith, e))
drop-padded (suc d) (x ∷ xs) [] zs e h = absurd (omega (arith, e))
drop-padded (suc d) (x ∷ xs) (y ∷ ys) zs e h = drop-padded d xs ys zs (omega (arith, e)) h

-- The sample begins after the longest packet number, so that masking does not change it.
same_sample :
    (offset : ℕ) (xs ys : Bytes)
    → length xs ≡ length ys
    → drop (offset + 4) xs ≡ drop (offset + 4) ys
    → packet_sample offset xs ≡ packet_sample offset ys
unfolding packet_sample
same_sample offset xs ys e h =
    rw e (ap (take 16) (drop-padded (offset + 4) xs ys (replicate (offset + 20 - length ys) 0) e h))

pub take-All : (n : ℕ) (ms : Bytes) → All (λ m. m < 256) ms → All (λ m. m < 256) (take n ms)
take-All zero ms h = tt
take-All (suc n) [] h = tt
take-All (suc n) (m ∷ ms) (h, hs) = (h, take-All n ms hs)

pub masked_first_top :
    (l : Bool) (b m : ℕ) → b < 256 → m < 256 → bit_and (masked_first l b m) 0x80 ≡ bit_and b 0x80
masked_first_top true b m hb hm = xor_0f_top m b hm hb
masked_first_top false b m hb hm = xor_1f_top m b hm hb

pub masked_first_twice :
    (l : Bool) (b m : ℕ) → b < 256 → m < 256 → masked_first l (masked_first l b m) m ≡ b
masked_first_twice true b m hb hm = xor_0f_twice m b hm hb
masked_first_twice false b m hb hm = xor_1f_twice m b hm hb

module _ (cipher : Bytes → Bytes) (offset b : ℕ) (bs : Bytes) (pos : 1 ≤ offset)
    (room : offset + 3 ≤ length bs) (hb : b < 256) (hbs : All (λ x. x < 256) bs) where
  abbrev is_long : Bool
  is_long = bit_and b 0x80 == 0x80

  abbrev number_length : ℕ
  number_length = bit_and b 0x3 + 1

  number_length-le : number_length ≤ 4
  number_length-le = omega (arith, bit_and_03 b hb)

  unprotect_lem :
      (mask : Bytes)
      → cipher (packet_sample offset (b ∷ bs)) ≡ mask
      → length mask ≡ 5
      → All (λ x. x < 256) mask
      → (c : Bytes) × (protect cipher is_long offset number_length (b ∷ bs) ≡ done c)
        × (unprotect cipher offset c ≡ done (b ∷ bs))
  unfolding protect unprotect
  unprotect_lem [] e five small = absurd (omega (arith, five))
  unprotect_lem (m ∷ ms) e five (hm, hms) =
      let first = masked_first is_long b m in
      let n = number_length in
      let short_mask : length (take n ms) ≤ 4 = omega (arith, length-take n ms, number_length-le) in
      let (cs, i) =
        mask_at-IsMasked (offset - 1) (take n ms) bs (omega (arith, short_mask, room, pos))
          (take-All n ms hms) hbs in
      let after : drop (offset + 4) (first ∷ cs) ≡ drop (offset + 4) (b ∷ bs) =
        let d : offset + 4 ≡ suc (offset + 3) = omega arith in
        rw d (i.same_after (offset + 3) (omega (arith, short_mask, pos))) in
      let sample : packet_sample offset (first ∷ cs) ≡ packet_sample offset (b ∷ bs) =
        same_sample offset (first ∷ cs) (b ∷ bs) (omega (arith, i.same_length)) after in
      let top : bit_and first 0x80 ≡ bit_and b 0x80 = masked_first_top is_long b m hb hm in
      let back : masked_first is_long first m ≡ b = masked_first_twice is_long b m hb hm in
      (first ∷ cs, rw (e, i.masks) refl, rw (sample, e, top, back, i.unmasks) refl)

-- The cipher makes a mask of five bytes. A packet is given whose packet number begins at the
-- offset, past the first byte, and has the length that its first byte tells; four bytes or more
-- follow the offset. SendPacket masks it without a panic, in the way of its form of header, and the
-- parsing agent, which has the masked bytes and the offset alone, gets back the same packet.
pub unprotect-protect :
    (cipher : Bytes → Bytes) (offset b : ℕ) (bs : Bytes)
    → ((s : Bytes) → (length (cipher s) ≡ 5) × All (λ x. x < 256) (cipher s))
    → 1 ≤ offset
    → offset + 3 ≤ length bs
    → All (λ x. x < 256) (b ∷ bs)
    → (c : Bytes) × (protect cipher (bit_and b 0x80 == 0x80) offset (bit_and b 0x3 + 1) (b ∷ bs)
        ≡ done c)
      × (unprotect cipher offset c ≡ done (b ∷ bs))
unprotect-protect cipher offset b bs h pos room (hb, hbs) =
    let s = packet_sample offset (b ∷ bs) in
    unprotect_lem cipher offset b bs pos room hb hbs (cipher s) refl (h s).0 (h s).1
