-- ===== src/Generator/Examples.antt =====
-- A plan with numbers as ratios, and the theorems at it.
use text.Mathlib.Text.{◌==◌ as str_eq}
use linux_application_develo.Shared.{
  ℕ, ◌+◌, ◌-◌, ◌*◌, ◌/◌, ◌≤◌, ◌≡◌, refl, none, some, leb, ok, err, arith, if◌then◌else◌,
}
use linux_application_develo.Shared.Float.{Float64}
use linux_application_develo.Shared.Int.{ℤ, pos, pos_part, ◌+ℤ◌, ◌-ℤ◌}
use linux_application_develo.Generator.{
  SizeLibrary, GenerateRequest, plan, plan_rows, hourly_rows, choose_stations, delta, abs_int64,
  parse_byte_size, size_of, multiplier, too_small_for_years, invalid_size,
}
use linux_application_develo.Generator.Stations.{IsQuotient, distance, choose_stations_nearest}
use linux_application_develo.Generator.Rows.{seconds_to, hourly_rows_lem}

-- A numerator and a denominator.
abbrev ratio : Float64
ratio = record {
  F = ℕ × ℕ;
  of_int = λ i. (pos_part i, 1);
  decimal = λ n d. (n, d);
  add = λ a b. (a.0 * b.1 + b.0 * a.1, a.1 * b.1);
  mul = λ a b. (a.0 * b.0, a.1 * b.1);
  div = λ a b. (a.0 * b.1, a.1 * b.0);
  le = λ a b. leb (a.0 * b.1) (b.0 * a.1);
  trunc = λ a. pos (a.0 / a.1);
}

abbrev ceil : ℕ × ℕ → ℤ
ceil a = pos ((a.0 + (a.1 - 1)) / a.1)

times_one : (a : ℕ) → a * 1 ≡ a
times_one a = omega arith

one_times : (m : ℕ) → 1 * m ≡ m
one_times m = omega arith

quotient : IsQuotient ratio ceil
quotient = record {
  floor_div = λ a m h k. rw (times_one a, one_times m) refl;
  ceil_div = λ a m h k. rw (times_one a, one_times m) refl;
}

abbrev lib : SizeLibrary ratio
lib = record {
  match_size = λ text. if str_eq text "2KB" then some ("2", "KB") else none;
  parse_float = λ digits. ok (2, 1);
  to_lower = λ unit. "kb";
  ceil = ceil;
}

abbrev request : ℤ → GenerateRequest ratio
request target = record {
  output_path = "out.csv";
  target_bytes = target;
  start_time = some (pos 0);
  years = pos 1;
  tolerance_pct = (5, 1);
  station_prefix = "";
}

abbrev add_years : ℤ → ℤ → ℤ
add_years start years = start +ℤ pos 7201

parses : parse_byte_size ratio lib "2KB" ≡ ok (pos 2048)
unfolding parse_byte_size size_of multiplier
parses = refl

refuses : parse_byte_size ratio lib "x" ≡ err (invalid_size "x")
unfolding parse_byte_size
refuses = refl

-- Three rows of 50 bytes for each station.
plans :
    plan ratio lib add_years (pos 0) 5 (request (pos 480)) 50
    ≡ ok (record { stations = 3; rows_per_station = 3 })
unfolding plan plan_rows hourly_rows choose_stations delta abs_int64 ◌+ℤ◌ ◌-ℤ◌
plans = refl

too_small :
    plan ratio lib add_years (pos 0) 5 (request (pos 200)) 50
    ≡ err (too_small_for_years (pos 200) 247)
unfolding plan plan_rows hourly_rows ◌+ℤ◌ ◌-ℤ◌
too_small = refl

within : seconds_to (pos 0) (pos 7201) ≤ 5 * 3600
unfolding ◌-ℤ◌
within = omega arith

choose_stations_nearest_example :
    distance 383 (choose_stations ratio ceil 383 150 * 150) ≤ distance 383 (2 * 150)
choose_stations_nearest_example =
    choose_stations_nearest ratio ceil quotient 383 150 2 (omega arith) (omega arith) (omega arith)

hourly_rows_lem_example :
    hourly_rows 5 (pos 0) (pos 7201) ≡ (seconds_to (pos 0) (pos 7201) + 3599) / 3600
hourly_rows_lem_example = hourly_rows_lem 5 (pos 0) (pos 7201) within
