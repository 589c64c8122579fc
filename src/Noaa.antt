-- ===== src/Noaa.antt =====
-- The station list of test-harness/pkg/data/noaa.go: its fixed columns, its cache, and the filter of
-- records by date. Texts are ASCII, and a file is its lines.
pub mod Caching
pub mod Lookups
mod Examples
use linux_application_develo.Shared.{
  ℕ, zero, suc, ◌+◌, ◌-◌, Bool, true, false, not, ◌&&◌, Option, none, some, List, [], ◌∷◌, ◌++◌,
  map, length, take, drop, ltb, leb, if◌then◌else◌, Result, ok, err,
}
use linux_application_develo.Shared.Text.{Text, lit, text_eq, trim_space}

-- The numbers and dates of the package: parseFloat and `%w.df`; time.Parse with the layout 20060102,
-- whose error leaves the zero time; IsZero, and Before.
pub record Values : Type 1 where
  pub F : Type 0
  pub parse_float : Text → F
  pub format_float : ℕ → ℕ → F → Text
  pub Time : Type 0
  pub zero_time : Time
  pub parse_time : Text → Time
  pub is_zero : Time → Bool
  pub before : Time → Time → Bool

-- `line[a:b]`, for a line of at least b bytes
abbrev pub slice : ℕ → ℕ → Text → Text
slice a b line = take (b - a) (drop a line)

abbrev pub spaces : ℕ → Text
spaces zero = []
spaces (suc n) = b' ' ∷ spaces n

-- `%-ns`
abbrev pub pad_right : ℕ → Text → Text
pad_right n t = t ++ spaces (n - length t)

module _ (v : Values) where
  -- Station
  pub record Station : Type 0 where
    pub id : Text
    pub name : Text
    pub country : Text
    pub latitude : v.F
    pub longitude : v.F
    pub elevation : v.F
    pub state : Text
    pub start_date : v.Time
    pub end_date : v.Time

  -- WeatherRecord
  pub record WeatherRecord : Type 0 where
    pub station_id : Text
    pub date : v.Time
    pub element : Text
    pub value : v.F
    pub quality_flag : Text

  -- A date column, which may be blank.
  unfoldable pub date_column : ℕ → ℕ → Text → v.Time
  date_column a b line =
      if not (text_eq (trim_space (slice a b line)) [])
      then v.parse_time (trim_space (slice a b line))
      else v.zero_time

  -- The body of the loop of parseStations; none for a line that is skipped.
  unfoldable pub parse_station : Text → Option Station
  parse_station line =
      let id = trim_space (slice 0 11 line) in
      if ltb (length line) 85
      then none
      else some (record {
        id = id;
        name = trim_space (slice 41 71 line);
        country = if leb 2 (length id) then take 2 id else [];
        latitude = v.parse_float (slice 12 20 line);
        longitude = v.parse_float (slice 21 30 line);
        elevation = v.parse_float (slice 31 37 line);
        state = trim_space (slice 38 40 line);
        start_date = if ltb 90 (length line) then date_column 82 90 line else v.zero_time;
        end_date = if ltb 98 (length line) then date_column 91 99 line else v.zero_time;
      })

  abbrev pub cons_some : Option Station → List Station → List Station
  cons_some none stations = stations
  cons_some (some s) stations = s ∷ stations

  -- parseStations
  unfoldable pub parse_stations : List Text → List Station
  parse_stations [] = []
  parse_stations (line ∷ lines) = cons_some (parse_station line) (parse_stations lines)

  -- A line of saveStationsToCache.
  unfoldable pub cached_line : Station → Text
  cached_line s =
      pad_right 11 s.id
      ++ b' '
        ∷ (v.format_float 8 4 s.latitude
            ++ b' '
              ∷ (v.format_float 9 4 s.longitude
                  ++ b' '
                    ∷ (v.format_float 6 1 s.elevation
                        ++ b' ' ∷ (pad_right 2 s.state ++ b' ' ∷ pad_right 30 s.name))))

  -- saveStationsToCache
  unfoldable pub save_stations : List Station → List Text
  save_stations [] = []
  save_stations (s ∷ rest) = cached_line s ∷ save_stations rest

  -- loadStations with the cache enabled, on the cached file, if there is one, and the download. It
  -- returns the file that it leaves, written where the station list is downloaded.
  unfoldable pub load_stations :
      {E : Type 0}
      → Option (List Text)
      → Result E (List Text)
      → Result E (List Station) × Option (List Text)
  load_stations (some cached) download = (ok (parse_stations cached), some cached)
  load_stations none (err e) = (err e, none)
  load_stations none (ok lines) =
      (ok (parse_stations lines), some (save_stations (parse_stations lines)))

  -- DownloaderOptions, as filterByDate reads them.
  pub record DateRange : Type 0 where
    pub start_date : v.Time
    pub end_date : v.Time

  -- filterByDate; `a.After(b)` is `b.Before(a)`.
  unfoldable pub filter_by_date : DateRange → List WeatherRecord → List WeatherRecord
  filter_by_date d [] = []
  filter_by_date d (r ∷ rest) =
      let others = filter_by_date d rest in
      if not (v.is_zero d.start_date) && v.before r.date d.start_date
      then others
      else if not (v.is_zero d.end_date) && v.before d.end_date r.date
      then others
      else r ∷ others
