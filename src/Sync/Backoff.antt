-- ===== src/Sync/Backoff.antt =====
-- `backoff_seconds` of crates/lagoon-api/src/sync/mod.rs. A duration is a number of 1275ths of a
-- second: the jitter is `base * 0.2 * (byte / 255 * 2 - 1)`, and 1275 is 255 * 5, so every value is
-- whole. The rounding of the `f64` arithmetic is left out.
use lagoon_email.Prelude.{
  ℕ, zero, suc, ◌+◌, ◌-◌, ◌*◌, ◌^◌, ◌≤◌, ◌<◌, ◌≡◌, refl, Bool-cases, inl, inr, arith, ltb, leb,
  if◌then◌else◌,
}

-- one second
abbrev pub second : ℕ
second = 1275

abbrev pub min_of : ℕ → ℕ → ℕ
min_of a b = if leb a b then a else b

abbrev pub max_of : ℕ → ℕ → ℕ
max_of a b = if leb a b then b else a

-- `2f64.powi(exponent).min(300.0)`, in seconds
unfoldable pub backoff_base : ℕ → ℕ
backoff_base consecutive = min_of (2 ^ min_of (consecutive - 1) 9) 300

-- `(base + base * 0.2 * unit).max(1.0)` for the random byte that is drawn
unfoldable pub backoff_seconds : ℕ → ℕ → ℕ
backoff_seconds consecutive byte = max_of (backoff_base consecutive * (1020 + 2 * byte)) second

-- the pauses before jitter: 1, 2, 4, …, 256, then 300 seconds
abbrev pub pause : ℕ → ℕ
pause zero = 1
pause (suc n) = if ltb n 9 then 2 ^ n else 300

base_small : (n : ℕ) → n < 9 → backoff_base (suc n) ≡ 2 ^ n
unfolding backoff_base
base_small zero h = refl
base_small (suc zero) h = refl
base_small (suc (suc zero)) h = refl
base_small (suc (suc (suc zero))) h = refl
base_small (suc (suc (suc (suc zero)))) h = refl
base_small (suc (suc (suc (suc (suc zero))))) h = refl
base_small (suc (suc (suc (suc (suc (suc zero)))))) h = refl
base_small (suc (suc (suc (suc (suc (suc (suc zero))))))) h = refl
base_small (suc (suc (suc (suc (suc (suc (suc (suc zero)))))))) h = refl
base_small (suc (suc (suc (suc (suc (suc (suc (suc (suc n))))))))) h = absurd (omega arith)

exponent_capped : (n : ℕ) → 9 ≤ n → min_of (suc n - 1) 9 ≡ 9
exponent_capped n h = ground arith

base_large : (n : ℕ) → 9 ≤ n → backoff_base (suc n) ≡ 300
unfolding backoff_base
base_large n h = rw (exponent_capped n h)

-- The pause doubles with each failure in a row, from 1 second, and stays at 300 seconds from the
-- tenth on.
pub backoff_base_lem : (consecutive : ℕ) → backoff_base consecutive ≡ pause consecutive
backoff_base_lem zero = unfold backoff_base in refl
backoff_base_lem (suc n) = elim (Bool-cases (ltb n 9)) [
  | inl few ↦ rw few (base_small n (ground arith))
  | inr many ↦ rw many (base_large n (ground arith))
]

pause_small : (n : ℕ) → n < 9 → (1 ≤ 2 ^ n) × (2 ^ n ≤ 300)
pause_small zero h = omega arith
pause_small (suc zero) h = omega arith
pause_small (suc (suc zero)) h = omega arith
pause_small (suc (suc (suc zero))) h = omega arith
pause_small (suc (suc (suc (suc zero)))) h = omega arith
pause_small (suc (suc (suc (suc (suc zero))))) h = omega arith
pause_small (suc (suc (suc (suc (suc (suc zero)))))) h = omega arith
pause_small (suc (suc (suc (suc (suc (suc (suc zero))))))) h = omega arith
pause_small (suc (suc (suc (suc (suc (suc (suc (suc zero)))))))) h = omega arith
pause_small (suc (suc (suc (suc (suc (suc (suc (suc (suc n))))))))) h = absurd (omega arith)

pause_bounds : (n : ℕ) → (1 ≤ pause n) × (pause n ≤ 300)
pause_bounds zero = omega arith
pause_bounds (suc n) = elim (Bool-cases (ltb n 9)) [
  | inl few ↦ rw few (pause_small n (ground arith))
  | inr many ↦ rw many (omega arith)
]

jittered :
    (p byte : ℕ)
    → 1 ≤ p
    → p ≤ 300
    → byte ≤ 255
    → let d = max_of (p * (1020 + 2 * byte)) second in
      (second ≤ d) × (d ≤ 360 * second) × (4 * (p * second) ≤ 5 * d) × (5 * d ≤ 6 * (p * second))
jittered p byte lo hi h = let scaled : p * byte ≤ p * 255 = grind arith in ground (arith, scaled)

-- The jitter moves the pause by a fifth of it at most, and no pause is shorter than one second or
-- longer than six minutes.
pub backoff_seconds_bounds :
    (consecutive byte : ℕ)
    → byte ≤ 255
    → (second ≤ backoff_seconds consecutive byte)
      × (backoff_seconds consecutive byte ≤ 360 * second)
      × (4 * (pause consecutive * second) ≤ 5 * backoff_seconds consecutive byte)
      × (5 * backoff_seconds consecutive byte ≤ 6 * (pause consecutive * second))
unfolding backoff_seconds
backoff_seconds_bounds consecutive byte h =
    rw (backoff_base_lem consecutive) (
      jittered (pause consecutive) byte (pause_bounds consecutive).0 (pause_bounds consecutive).1 h)
