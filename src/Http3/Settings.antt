-- ===== src/Http3/Settings.antt =====
-- http3/http3.go: the loop of ReadSETTINGS comes to an end on every content.
use quic_tracker.Base.{
  ℕ, zero, suc, ◌≤◌, ◌<◌, ◌≡◌, refl, [], ◌∷◌, List, Bytes, length, some, Outcome, done, panic,
  arith, Outcome-cases, inl, inr, le→leb,
}
use quic_tracker.Reader.{read_full, read_full?, big_endian}
use quic_tracker.Reader.Shrinks.{AtMost, AtMost-bind, return-Shrinks, bind-Shrinks}
use quic_tracker.VarInt.Shrinks.{read_var_int-Shrinks}
use quic_tracker.Http3.{Setting}
use quic_tracker.Http3.Read.{read_setting, prepend, read_settings_from, settings_of}

two_bytes-AtMost : (b : ℕ) (bs : Bytes) → AtMost (length bs) (read_full 2 (b ∷ bs))
unfolding read_full read_full?
two_bytes-AtMost b [] = omega arith
two_bytes-AtMost b (c ∷ bs) =
    rw (read_full, read_full?, le→leb 2 (length (b ∷ c ∷ bs)) (omega arith)) (omega arith)

read_setting-AtMost : (b : ℕ) (bs : Bytes) → AtMost (length bs) (read_setting (b ∷ bs))
unfolding read_setting
read_setting-AtMost b bs =
    AtMost-bind (read_full 2) _ (length bs) (b ∷ bs) (two_bytes-AtMost b bs) λ id.
      bind-Shrinks _ _ read_var_int-Shrinks
        λ v. return-Shrinks (record { identifier = big_endian 0 id; value = v })

prepend-some :
    (s : Setting) (o : Outcome (List Setting))
    → (r : Outcome (List Setting)) × (prepend s (some o) ≡ some r)
prepend-some s (done l) = (done (s ∷ l), refl)
prepend-some s panic = (panic, refl)

read_settings_from-ends :
    (n : ℕ) (bs : Bytes)
    → length bs < n
    → (o : Outcome (List Setting)) × (read_settings_from n bs ≡ some o)
unfolding read_settings_from
read_settings_from-ends zero bs lt = absurd (omega (arith, lt))
read_settings_from-ends (suc n) [] lt = (done [], refl)
read_settings_from-ends (suc n) (b ∷ bs) lt = elim (Outcome-cases (read_setting (b ∷ bs))) [
  | inl e ↦ (panic, rw (read_settings_from, e) refl)
  | inr ((s, rest), e) ↦
      let le : length rest ≤ length bs = (rw e at (read_setting-AtMost b bs)) in
      let (o, p) = read_settings_from-ends n rest (omega (arith, le, lt)) in
      let (r, q) = prepend-some s o in (r, rw (read_settings_from, e, p, q) refl)
]

-- On any content at all the loop that reads the settings ends, with the settings or with a panic,
-- since every setting takes a byte or more, even where the content stops in the middle of one.
pub settings_of-ends : (bs : Bytes) → (o : Outcome (List Setting)) × (settings_of bs ≡ some o)
unfolding settings_of
settings_of-ends bs = read_settings_from-ends (suc (length bs)) bs (omega arith)
