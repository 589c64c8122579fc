-- ===== src/Contracts/Binaries.antt =====
-- The validator's search for a binary against the service manager's.
use Prim.Native.String.{String, ◌++◌ as ◌<>◌}
use text.Mathlib.TextLemmas.{append_assoc}
use mathlib.Core.Path.{subst}
use linux_application_develo.Shared.{
  ◌≡◌, ◌≢◌, refl, sym, Bool, false, Option, none, List, [], ◌∷◌, arith,
}
use linux_application_develo.Services.{Host, find_binary}
use linux_application_develo.Services.Searches.{
  IsFirst, here, later, nowhere, candidates, find_binary-IsFirst,
}
use linux_application_develo.Contracts.{binary_paths, any_exists, check_binary}

-- The path is one of the list.
data IsIn (path : String) : List String → Type 0 where
  first : {rest : List String} → IsIn path (path ∷ rest)
  next : {other : String} {rest : List String} → IsIn path rest → IsIn path (other ∷ rest)

-- None of the paths exists.
absent :
    (host : Host) (paths : List String) (o : Option String)
    → IsFirst host paths o
    → o ≡ none
    → (path : String) → IsIn path paths
    → host.exists path ≡ false
absent host _ _ (here e) h path p = absurd (ground (arith, h))
absent host _ _ nowhere h path p = elim p [ ]
absent host _ _ (later e f) h path first = e
absent host _ _ (later e f) h path (next p) = absent host _ _ f h path p

none_exists :
    (exists : String → Bool) (paths : List String)
    → ((path : String) → IsIn path paths → exists path ≡ false)
    → any_exists exists paths ≡ false
unfolding any_exists
none_exists exists [] h = refl
none_exists exists (path ∷ rest) h =
    ground (arith, h path first, none_exists exists rest (λ p q. h p (next q)))

searched : (name path : String) → IsIn path (binary_paths name) → IsIn path (candidates name)
searched name _ first = first
searched name _ (next first) = next first
searched name _ (next (next first)) = next (next first)
searched name _ (next (next (next first))) =
    subst (λ t. IsIn ("./services/" <> name <> t) (candidates name))
      (sym (append_assoc "/" "ws-" name))
      (next (next (next (next (next (next (next (next first))))))))
searched name _ (next (next (next (next first)))) = next (next (next (next (next first))))
searched name _ (next (next (next (next (next first))))) =
    next (next (next (next (next (next first)))))
searched name path (next (next (next (next (next (next p)))))) = elim p [ ]

-- If the validator finds a service's binary, then the service manager finds one to start.
pub check_binary-find_binary :
    (host : Host) (name : String)
    → check_binary host.exists name ≡ none
    → find_binary host name ≢ none
unfolding check_binary
check_binary-find_binary host name found h =
    let gone = none_exists host.exists (binary_paths name) (λ path p.
      absent host (candidates name) (find_binary host name) (find_binary-IsFirst host name) h path
        (searched name path p)) in
    absurd (ground (arith, found, gone))
