-- ===== src/Noaa/Caching.antt =====
-- What the cache of the station list gives back.
use linux_application_develo.Shared.{
  ℕ, zero, suc, ◌-◌, ◌≤◌, ◌<◌, ◌≡◌, refl, ap, none, List, [], ◌∷◌, length, length-append, lt→ltb,
  All, arith, Result, ok,
}
use linux_application_develo.Shared.Text.{Text}
use linux_application_develo.Noaa.{
  Values, Station, spaces, pad_right, parse_station, parse_stations, cached_line, save_stations,
  load_stations,
}

length-spaces : (n : ℕ) → length (spaces n) ≡ n
length-spaces zero = refl
length-spaces (suc n) = ap suc (length-spaces n)

length-pad_right : (n : ℕ) (t : Text) → length t ≤ n → length (pad_right n t) ≡ n
length-pad_right n t h =
    omega (arith, h, length-append t (spaces (n - length t)), length-spaces (n - length t))

module _ (v : Values) where
  -- A station whose columns are no wider than the format.
  pub record FitsColumns (s : Station v) : Type 0 where
    pub id_fits : length s.id ≤ 11
    pub latitude_fits : length (v.format_float 8 4 s.latitude) ≤ 8
    pub longitude_fits : length (v.format_float 9 4 s.longitude) ≤ 9
    pub elevation_fits : length (v.format_float 6 1 s.elevation) ≤ 6
    pub state_fits : length s.state ≤ 2
    pub name_fits : length s.name ≤ 30

  length-cached_line : (s : Station v) → FitsColumns s → length (cached_line v s) ≤ 71
  unfolding cached_line
  length-cached_line s fits = omega (
    arith,
    fits.id_fits,
    fits.latitude_fits,
    fits.longitude_fits,
    fits.elevation_fits,
    length-pad_right 11 s.id fits.id_fits,
    length-pad_right 2 s.state fits.state_fits,
    length-pad_right 30 s.name fits.name_fits,
    length-append {A = ℕ},
  )

  short_line : (line : Text) → length line < 85 → parse_station v line ≡ none
  unfolding parse_station
  short_line line h = rw (lt→ltb (length line) 85 h) refl

  pub parse_stations-save_stations :
      (stations : List (Station v))
      → All FitsColumns stations
      → parse_stations v (save_stations v stations) ≡ []
  unfolding parse_stations save_stations
  parse_stations-save_stations [] all = refl
  parse_stations-save_stations (s ∷ rest) (fits, all) =
      rw (short_line (cached_line v s) (omega (arith, length-cached_line s fits)))
        (parse_stations-save_stations rest all)

  -- If loadStations finds no cached file and downloads a list whose stations fit the columns, it
  -- returns them and caches them; and the next call returns no station.
  pub load_stations_again :
      {E : Type 0} (lines : List Text) (download : Result E (List Text))
      → All FitsColumns (parse_stations v lines)
      → ((load_stations v {E = E} none (ok lines)).0 ≡ ok (parse_stations v lines))
        × ((load_stations v (load_stations v {E = E} none (ok lines)).1 download).0 ≡ ok [])
  unfolding load_stations
  load_stations_again lines download fits =
      (refl, ap ok (parse_stations-save_stations (parse_stations v lines) fits))
