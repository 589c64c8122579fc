-- ===== src/Services/Searches.antt =====
-- The search for a service's binary.
use Prim.Native.String.{String, ◌++◌ as ◌<>◌}
use linux_application_develo.Shared.{
  ◌≡◌, refl, true, false, Option, none, some, List, [], ◌∷◌, ◌++◌, arith, inl, inr, Bool-cases,
}
use linux_application_develo.Services.{
  Host, first_existing, search_paths, alt_paths, or_search, find_binary,
}

-- The list of all candidates, in the order of the search.
abbrev pub candidates : String → List String
candidates name =
    search_paths name ++ (alt_paths name ("ws-" <> name) ++ alt_paths name ("ws_" <> name))

first_existing-append :
    (host : Host) (xs ys : List String)
    → first_existing host (xs ++ ys) ≡ or_search (first_existing host xs) (first_existing host ys)
unfolding first_existing
first_existing-append host [] ys = refl
first_existing-append host (x ∷ xs) ys = ground (arith, first_existing-append host xs ys)

-- What a search over a list finds: a path before which none exists, or none of them exists.
pub data IsFirst (host : Host) : List String → Option String → Type 0 where
  here :
      {path : String} {rest : List String}
      → host.exists path ≡ true
      → IsFirst host (path ∷ rest) (some path)
  later :
      {path : String} {rest : List String} {o : Option String}
      → host.exists path ≡ false
      → IsFirst host rest o
      → IsFirst host (path ∷ rest) o
  nowhere : IsFirst host [] none

first_existing-IsFirst :
    (host : Host) (paths : List String) → IsFirst host paths (first_existing host paths)
unfolding first_existing
first_existing-IsFirst host [] = nowhere
first_existing-IsFirst host (path ∷ rest) = elim (Bool-cases (host.exists path)) [
  | inl e ↦ rw e (here e)
  | inr e ↦ rw e (later e (first_existing-IsFirst host rest))
]

-- findBinary returns the first of its nineteen candidates that exists, and none if none does.
pub find_binary-IsFirst :
    (host : Host) (name : String) → IsFirst host (candidates name) (find_binary host name)
unfolding find_binary
find_binary-IsFirst host name =
    let alts = alt_paths name ("ws-" <> name) in
    let more = alt_paths name ("ws_" <> name) in
    rw
      (
        first_existing-append host (search_paths name) (alts ++ more),
        first_existing-append host alts more,
      )
      at (first_existing-IsFirst host (search_paths name ++ (alts ++ more)))
