-- ===== src/Noaa/Examples.antt =====
-- A station list of one line, and its cache.
use linux_application_develo.Shared.{
  All, ℕ, ◌≡◌, refl, false, none, [], ◌∷◌, length, arith, ok, err,
}
use linux_application_develo.Shared.Text.{Text, lit, trim_space, trim_left, text_eq}
use linux_application_develo.Noaa.{
  Values, Station, parse_station, parse_stations, date_column, load_stations,
}
use linux_application_develo.Noaa.Lookups.{
  to_lower, equal_fold, iso_to_fips, resolve, not_found, find_station, get_station,
  get_station_again,
}
use linux_application_develo.Noaa.Caching.{FitsColumns, load_stations_again}

-- Numbers and dates as the columns spell them.
abbrev spelled : Values
spelled = record {
  F = ℕ;
  parse_float = λ t. length t;
  format_float = λ w d x. lit "1.0";
  Time = Text;
  zero_time = [];
  parse_time = λ t. t;
  is_zero = λ t. text_eq t [];
  before = λ s t. false;
}

abbrev line : Text
line = lit "GME00102380  48.0458    8.4617  720.0 BW VILLINGEN-SCHWENNINGEN         GSN     10818"

abbrev villingen : Station spelled
villingen = record {
  id = lit "GME00102380";
  name = lit "VILLINGEN-SCHWENNINGEN";
  country = lit "GM";
  latitude = 8;
  longitude = 9;
  elevation = 6;
  state = lit "BW";
  start_date = [];
  end_date = [];
}

one_station : parse_stations spelled (line ∷ []) ≡ villingen ∷ []
unfolding parse_stations parse_station date_column trim_space trim_left text_eq
one_station = refl

villingen-FitsColumns : FitsColumns spelled villingen
villingen-FitsColumns = record {
  id_fits = omega arith;
  latitude_fits = omega arith;
  longitude_fits = omega arith;
  elevation_fits = omega arith;
  state_fits = omega arith;
  name_fits = omega arith;
}

one-FitsColumns : All (FitsColumns spelled) (parse_stations spelled (line ∷ []))
one-FitsColumns = rw one_station (villingen-FitsColumns, tt)

load_stations_again_example :
    ((load_stations spelled {E = Text} none (ok (line ∷ []))).0
      ≡ ok (parse_stations spelled (line ∷ [])))
    × ((load_stations spelled {E = Text}
          (load_stations spelled {E = Text} none (ok (line ∷ []))).1
          (ok (line ∷ []))).0
        ≡ ok [])
load_stations_again_example =
    load_stations_again spelled {E = Text} (line ∷ []) (ok (line ∷ [])) one-FitsColumns

-- Germany has another code in the station list.
germany : resolve iso_to_fips (to_lower (lit "DE")) ≡ lit "gm"
unfolding resolve to_lower text_eq
germany = refl

-- The id is found in either case of letters.
found : find_station spelled {E = Text} (lit "gme00102380") (villingen ∷ []) ≡ ok villingen
unfolding find_station equal_fold to_lower text_eq
found = refl

again :
    (get_station spelled {E = Text}
      (lit "GME00102380")
      (load_stations spelled {E = Text} none (ok (line ∷ []))).1
      (ok (line ∷ []))).0
    ≡ err (not_found (lit "GME00102380"))
again =
    get_station_again spelled {E = Text} (lit "GME00102380") (line ∷ []) (ok (line ∷ []))
      one-FitsColumns
