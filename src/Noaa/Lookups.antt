-- ===== src/Noaa/Lookups.antt =====
-- The lookups of stations in test-harness/pkg/data/noaa.go, and DownloadStation with its cache. Cached
-- files, disk space and requests are the host's; the rate limiter's waits are left out.
use Prim.Native.String.{String}
use linux_application_develo.Shared.{
  ◌+◌, ◌≡◌, ap, Bool, ◌&&◌, Option, none, List, [], ◌∷◌, filter, All, leb, if◌then◌else◌, Result,
  ok, err,
}
use linux_application_develo.Shared.Text.{Text, lit, text_eq}
use linux_application_develo.Noaa.{Values, Station, parse_stations, load_stations}
use linux_application_develo.Noaa.Caching.{FitsColumns, parse_stations-save_stations}

-- strings.ToLower on ASCII
unfoldable pub to_lower : Text → Text
to_lower [] = []
to_lower (c ∷ t) = (if leb 65 c && leb c 90 then c + 32 else c) ∷ to_lower t

-- strings.EqualFold on ASCII
unfoldable pub equal_fold : Text → Text → Bool
equal_fold s t = text_eq (to_lower s) (to_lower t)

-- isoToFIPS
abbrev pub iso_to_fips : List (String × String)
iso_to_fips =
    ("de", "gm")
    ∷ ("pl", "pl")
    ∷ ("tw", "ch")
    ∷ ("gb", "uk")
    ∷ ("kr", "ks")
    ∷ ("kp", "kn")
    ∷ ("bo", "bl")
    ∷ ("br", "br")
    ∷ ("by", "bo")
    ∷ ("cz", "ez")
    ∷ ("eg", "eg")
    ∷ ("gr", "gr")
    ∷ ("hr", "hr")
    ∷ ("hu", "hu")
    ∷ ("il", "is")
    ∷ ("ir", "ir")
    ∷ ("jo", "jo")
    ∷ ("ke", "ke")
    ∷ ("la", "la")
    ∷ ("lb", "le")
    ∷ ("lk", "ce")
    ∷ ("ly", "ly")
    ∷ ("ma", "mo")
    ∷ ("mm", "bm")
    ∷ ("np", "np")
    ∷ ("nz", "nz")
    ∷ ("ph", "rp")
    ∷ ("pk", "pk")
    ∷ ("ro", "ro")
    ∷ ("rs", "ri")
    ∷ ("sa", "sa")
    ∷ ("sk", "lo")
    ∷ ("sy", "sy")
    ∷ ("th", "th")
    ∷ ("tz", "tz")
    ∷ ("ua", "up")
    ∷ ("vn", "vm")
    ∷ ("ye", "ym")
    ∷ ("zm", "za")
    ∷ ("zw", "zi")
    ∷ []

-- The code that is looked up.
unfoldable pub resolve : List (String × String) → Text → Text
resolve [] code = code
resolve ((iso, fips) ∷ rest) code =
    let later = resolve rest code in if text_eq (lit iso) code then lit fips else later

module _ (v : Values) where
  -- The errors of the lookups.
  pub data LookupError (E : Type 0) : Type 0 where
    not_found : Text → LookupError E
    load_failed : E → LookupError E

  -- GetStation, on the stations that are loaded
  unfoldable pub find_station :
      {E : Type 0} → Text → List (Station v) → Result (LookupError E) (Station v)
  find_station id [] = err (not_found id)
  find_station id (s ∷ rest) =
      let later = find_station id rest in if equal_fold s.id id then ok s else later

  -- GetStation, with the cache that loadStations leaves
  unfoldable pub get_station :
      {E : Type 0}
      → Text
      → Option (List Text)
      → Result E (List Text)
      → Result (LookupError E) (Station v) × Option (List Text)
  get_station id cached download =
      let (loaded, file) = load_stations v cached download in
      elim loaded [
        | err e ↦ (err (load_failed e), file)
        | ok stations ↦ (find_station id stations, file)
      ]

  -- GetStationsByCountry
  unfoldable pub get_stations_by_country :
      {E : Type 0}
      → Text
      → Option (List Text)
      → Result E (List Text)
      → Result E (List (Station v)) × Option (List Text)
  get_stations_by_country code cached download =
      let (loaded, file) = load_stations v cached download in
      elim loaded [
        | err e ↦ (err e, file)
        | ok stations ↦ (
          ok (
              filter (λ (s : Station v). equal_fold s.country (resolve iso_to_fips (to_lower code)))
                stations),
          file,
        )
      ]

  -- Once a station list is downloaded and cached, GetStation finds no station in the cache.
  pub get_station_again :
      {E : Type 0} (id : Text) (lines : List Text) (download : Result E (List Text))
      → All (FitsColumns v) (parse_stations v lines)
      → (get_station id (load_stations v {E = E} none (ok lines)).1 download).0 ≡ err (not_found id)
  unfolding get_station load_stations find_station
  get_station_again {E} id lines download fits =
      ap (find_station {E = E} id) (parse_stations-save_stations v (parse_stations v lines) fits)
