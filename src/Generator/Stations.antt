-- ===== src/Generator/Stations.antt =====
-- The number of stations is the best one.
use native.Mathlib.Nat.{div-mul-le_self, lt-div-mul-add, div-lt_iff_lt-mul}
use linux_application_develo.Shared.{
  ℕ, zero, suc, ◌+◌, ◌-◌, ◌*◌, ◌/◌, ◌^◌, ◌≤◌, ◌<◌, ◌≡◌, if◌then◌else◌, arith,
}
use linux_application_develo.Shared.Float.{Float64}
use linux_application_develo.Shared.Int.{ℤ, pos, ◌-ℤ◌, ltb_ℤ}
use linux_application_develo.Generator.{abs_int64, int, at_least_one, delta, choose_stations}

-- The distance of two numbers.
abbrev pub distance : ℕ → ℕ → ℕ
distance a b = (a - b) + (b - a)

delta-distance : (f : Float64) (a m s : ℕ) → delta f a m s ≡ pos (distance a (s * m))
unfolding delta abs_int64 ◌-ℤ◌
delta-distance f a m s = ground arith

-- The floor and the ceiling of the quotient of two positive numbers below 2^53, which float64 gives.
pub record IsQuotient (f : Float64) (ceil : f.F → ℤ) : Type 0 where
  pub floor_div : (a m : ℕ) → 1 ≤ m → a < 2 ^ 53 → f.trunc (f.div (int f a) (int f m)) ≡ pos (a / m)
  pub ceil_div :
      (a m : ℕ) → 1 ≤ m → a < 2 ^ 53 → ceil (f.div (int f a) (int f m)) ≡ pos ((a + (m - 1)) / m)

-- At most k stations are below, and more are above.
below : (a m k : ℕ) → k * m ≤ a → (s : ℕ) → s ≤ k → distance a (k * m) ≤ distance a (s * m)
below a m k h s le = grind arith

above : (a m k : ℕ) → a ≤ k * m → (s : ℕ) → k ≤ s → distance a (k * m) ≤ distance a (s * m)
above a m k h s le = grind arith

low_le : (a m : ℕ) → 1 ≤ m → a / m * m ≤ a
low_le a m h = div-mul-le_self a m

high_ge : (a m : ℕ) → 1 ≤ m → a ≤ (a + (m - 1)) / m * m
high_ge a m h = omega (arith, lt-div-mul-add {a = a + (m - 1)} {b = m} h, h)

step : (a m : ℕ) → 1 ≤ m → (a + (m - 1)) / m ≤ a / m + 1
step a m h =
    let room : a + (m - 1) < (a / m + 2) * m = grind (arith, lt-div-mul-add {a = a} {b = m} h, h) in
    let less : (a + (m - 1)) / m < a / m + 2 = (div-lt_iff_lt-mul h).1 room in omega (arith, less)

positive_of : (q a m : ℕ) → a < q * m + m → m ≤ a → 1 ≤ q
positive_of zero a m h k = absurd (omega (arith, h, k))
positive_of (suc q) a m h k = omega arith

positive_quotient : (a m : ℕ) → 1 ≤ m → m ≤ a → 1 ≤ a / m
positive_quotient a m h k = positive_of (a / m) a m (lt-div-mul-add h) k

module _ (f : Float64) (ceil : f.F → ℤ) (quotient : IsQuotient f ceil) where
  at_least-pos : (n : ℕ) → 1 ≤ n → at_least_one f (pos n) ≡ n
  at_least-pos n h = ground arith

  -- The better one of two numbers of stations.
  choose : (a m low high : ℕ) → ℕ
  choose a m low high = if ltb_ℤ (delta f a m high) (delta f a m low) then high else low

  choose_best :
      (a m low high k : ℕ)
      → high ≤ low + 1
      → low * m ≤ a
      → a ≤ high * m
      → distance a (choose a m low high * m) ≤ distance a (k * m)
  unfolding choose
  choose_best a m low high k h l u =
      let better = below a m low l k in
      let worse = above a m high u k in
      ground (arith, delta-distance f a m high, delta-distance f a m low, better, worse, h)

  -- Where float64 gives the floor and the ceiling of the quotient, GenerateCSV chooses a number of
  -- stations whose rows come as near as possible to the available bytes, if they are enough for one
  -- station.
  pub choose_stations_nearest :
      (a m k : ℕ)
      → 1 ≤ m
      → m ≤ a
      → a < 2 ^ 53
      → distance a (choose_stations f ceil a m * m) ≤ distance a (k * m)
  unfolding choose_stations choose
  choose_stations_nearest a m k one enough small =
      let some_low : 1 ≤ a / m = positive_quotient a m one enough in
      let some_high : 1 ≤ (a + (m - 1)) / m =
        positive_quotient (a + (m - 1)) m one (omega (arith, enough)) in
      rw
        (
          quotient.floor_div a m one small,
          quotient.ceil_div a m one small,
          at_least-pos (a / m) some_low,
          at_least-pos ((a + (m - 1)) / m) some_high,
        )
        (choose_best a m (a / m) ((a + (m - 1)) / m) k (step a m one) (low_le a m one)
          (high_ge a m one))
