-- ===== src/Generator.antt =====
-- The plan of a weather data file in test-harness/pkg/data/generate.go: sizes, the checks of GenerateCSV
-- and its number of stations and rows. The weather values and the writing of the file are left out.
-- Times are seconds, and the length of a row is an argument.
pub mod Stations
pub mod Rows
mod Examples
use Prim.Native.String.{String}
use text.Mathlib.Text.{◌==◌ as str_eq}
use linux_application_develo.Shared.{
  ℕ, zero, suc, ◌+◌, ◌*◌, Bool, true, false, not, Option, none, some, List, [], ◌∷◌, length, ltb,
  leb, if◌then◌else◌, Result, ok, err,
}
use linux_application_develo.Shared.Float.{Float64}
use linux_application_develo.Shared.Int.{ℤ, pos, negsuc, pos_part, ◌+ℤ◌, ◌-ℤ◌, ltb_ℤ}
use linux_application_develo.Shared.Text.{Text, lit}

-- absInt64
unfoldable pub abs_int64 : ℤ → ℤ
abs_int64 (pos n) = pos n
abs_int64 (negsuc n) = pos (suc n)

-- An hour, in seconds.
abbrev pub hour : ℤ
hour = pos 3600

-- The loop of hourlyRows, on fuel.
unfoldable pub hourly_rows : ℕ → ℤ → ℤ → ℕ
hourly_rows zero ts end = 0
hourly_rows (suc n) ts end =
    let rest = hourly_rows n (ts +ℤ hour) end in if ltb_ℤ ts end then suc rest else 0

-- The header of the file.
abbrev pub header : Text
header =
    lit
      "timestamp,station_id,temperature_c,humidity_pct,pressure_hpa,wind_speed_mps,wind_dir_deg,rain_mm\n"

-- The errors of ParseByteSize and of GenerateCSV before it writes.
pub data GenerateError : Type 0 where
  invalid_size invalid_number : String → GenerateError
  size_not_positive size_too_small : GenerateError
  unsupported_unit : String → GenerateError
  no_output_path target_not_positive invalid_window no_row_length too_small_for_header :
      GenerateError
  too_small_for_years : ℤ → ℕ → GenerateError

-- Where HumanByteSize cuts its units.
pub data HumanSize (f : Float64) : Type 0 where
  gigabytes megabytes kilobytes : f.F → HumanSize f
  in_bytes : ℤ → HumanSize f

module _ (f : Float64) where
  -- The regular expression of a size, which gives the number and the unit; strconv.ParseFloat with its
  -- error; strings.ToLower; and math.Ceil, as an int.
  pub record SizeLibrary : Type 0 where
    pub match_size : String → Option (String × String)
    pub parse_float : String → Result String f.F
    pub to_lower : String → String
    pub ceil : f.F → ℤ

  abbrev pub int : ℕ → f.F
  int n = f.of_int (pos n)

  -- The `switch` over the units.
  unfoldable pub multiplier : String → Option f.F
  multiplier unit =
      if str_eq unit ""
      then some (int 1)
      else if str_eq unit "b"
      then some (int 1)
      else if str_eq unit "kb"
      then some (int 1024)
      else if str_eq unit "mb"
      then some (int 1048576)
      else if str_eq unit "gb"
      then some (int 1073741824)
      else none

  -- ParseByteSize from its number and its unit on.
  unfoldable pub size_of : f.F → String → Result GenerateError ℤ
  size_of number unit = elim (f.le number (int 0)) [
    | true ↦ err size_not_positive
    | false ↦ elim (multiplier unit) [
      | none ↦ err (unsupported_unit unit)
      | some m ↦
          let bytes = f.trunc (f.mul number m) in
          if ltb_ℤ (pos 0) bytes then ok bytes else err size_too_small
    ]
  ]

  -- ParseByteSize
  unfoldable pub parse_byte_size : SizeLibrary → String → Result GenerateError ℤ
  parse_byte_size lib value = elim (lib.match_size value) [
    | none ↦ err (invalid_size value)
    | some (digits, unit) ↦ elim (lib.parse_float digits) [
      | err e ↦ err (invalid_number digits)
      | ok number ↦ size_of number (lib.to_lower unit)
    ]
  ]

  -- bytes >= n
  abbrev pub at_least : ℤ → ℕ → Bool
  at_least bytes n = not (ltb_ℤ bytes (pos n))

  -- HumanByteSize, up to the format of its number
  unfoldable pub human_byte_size : ℤ → HumanSize f
  human_byte_size bytes =
      if at_least bytes 1073741824
      then gigabytes (f.div (f.of_int bytes) (int 1073741824))
      else if at_least bytes 1048576
      then megabytes (f.div (f.of_int bytes) (int 1048576))
      else if at_least bytes 1024
      then kilobytes (f.div (f.of_int bytes) (int 1024))
      else in_bytes bytes

  -- `if stations < 1 { stations = 1 }`
  abbrev pub at_least_one : ℤ → ℕ
  at_least_one (pos n) = if ltb n 1 then 1 else n
  at_least_one (negsuc n) = 1

  -- The distance of the available bytes from those of some stations.
  unfoldable pub delta : ℕ → ℕ → ℕ → ℤ
  delta available per_station stations = abs_int64 (pos available -ℤ pos (stations * per_station))

  -- The number of stations; the quotient is positive, so that its floor is its truncation.
  unfoldable pub choose_stations : (f.F → ℤ) → ℕ → ℕ → ℕ
  choose_stations ceil available per_station =
      let approx = f.div (int available) (int per_station) in
      let low = at_least_one (f.trunc approx) in
      let high = at_least_one (ceil approx) in
      if ltb_ℤ (delta available per_station high) (delta available per_station low)
      then high
      else low

  -- GenerateRequest; HeaderWithMeta is not read.
  pub record GenerateRequest : Type 0 where
    pub output_path : String
    pub target_bytes : ℤ
    pub start_time : Option ℤ
    pub years : ℤ
    pub tolerance_pct : f.F
    pub station_prefix : String

  abbrev pub or_positive : ℤ → ℤ → ℤ
  or_positive x d = if ltb_ℤ (pos 0) x then x else d

  -- The stations and the rows of each that GenerateCSV writes.
  pub record Plan : Type 0 where
    pub stations : ℕ
    pub rows_per_station : ℕ

  -- GenerateCSV, from its rows on, for a length of a row.
  unfoldable pub plan_rows : SizeLibrary → GenerateRequest → ℕ → ℕ → Result GenerateError Plan
  plan_rows lib req row_length rows =
      let available = req.target_bytes -ℤ pos (length header) in
      let per_station = row_length * rows in
      if leb rows 0
      then err invalid_window
      else if leb row_length 0
      then err no_row_length
      else if ltb_ℤ (pos 0) available
      then (if ltb_ℤ available (pos per_station)
          then err (too_small_for_years req.target_bytes (per_station + length header))
          else ok (record {
            stations = choose_stations lib.ceil (pos_part available) per_station;
            rows_per_station = rows;
          }))
      else err too_small_for_header

  abbrev pub start_of : ℤ → Option ℤ → ℤ
  start_of default none = default
  start_of default (some start) = start

  -- GenerateCSV up to the writing of the file; `add_years` is AddDate, and `first_day` the default start
  -- in 1926.
  unfoldable pub plan :
      SizeLibrary → (ℤ → ℤ → ℤ) → ℤ → ℕ → GenerateRequest → ℕ → Result GenerateError Plan
  plan lib add_years first_day fuel req row_length =
      let start = start_of first_day req.start_time in
      let years = or_positive req.years (pos 100) in
      if str_eq req.output_path ""
      then err no_output_path
      else if ltb_ℤ (pos 0) req.target_bytes
      then plan_rows lib req row_length (hourly_rows fuel start (add_years start years))
      else err target_not_positive
