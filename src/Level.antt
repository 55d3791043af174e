-- ===== src/Level.antt =====
-- crypto.go: the encryption levels.
use quic_tracker.Base.{ℕ, Bool, ◌==◌, if◌then◌else◌}

pub data Level : Type 0 where
  level_none level_initial level_0rtt level_handshake level_1rtt level_best level_best_app_data :
      Level

-- The constants' values.
abbrev pub number : Level → ℕ
number level_none = 0
number level_initial = 1
number level_0rtt = 2
number level_handshake = 3
number level_1rtt = 4
number level_best = 5
number level_best_app_data = 6

abbrev pub same_level : Level → Level → Bool
same_level a b = number a == number b

-- An assignment in a map from levels.
abbrev pub set_level {ℓ} : {A : Type ℓ} → Level → A → (Level → A) → Level → A
set_level l a m i = if same_level i l then a else m i
