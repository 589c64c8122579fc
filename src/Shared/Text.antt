-- ===== src/Shared/Text.antt =====
-- Text as the list of its code points (its bytes, where it is ASCII), and what the program uses of
-- the packages strings and fmt on it.
pub mod Decimal
use Prim.Native.Nat.{ℕ, zero, suc}
use Prim.Native.Char.{code}
use Prim.Native.String.{String}
use mathlib.Core.Path.{◌≡◌, refl}
use mathlib.Core.Bool.{Bool, true, false, ◌&&◌, ◌||◌, not}
use mathlib.Core.List.{List, [], ◌∷◌, ◌++◌, reverse}
use native.Mathlib.Omega.{arith}
use linux_application_develo.Shared.Tests.{◌==◌, if◌then◌else◌}

abbrev pub Text : Type 0
Text = List ℕ

-- The text of a literal.
abbrev pub lit : String → Text
lit String.[] = []
lit (String.◌∷◌ ch rest) = code ch ∷ lit rest

unfoldable pub text_eq : Text → Text → Bool
text_eq [] [] = true
text_eq (x ∷ xs) (y ∷ ys) = (x == y) && text_eq xs ys
text_eq _ _ = false

pub text_eq_refl : (t : Text) → text_eq t t ≡ true
unfolding text_eq
text_eq_refl [] = refl
text_eq_refl (x ∷ xs) = ground (arith, text_eq_refl xs)

pub text_eq→eq : (s t : Text) → text_eq s t ≡ true → s ≡ t
unfolding text_eq
text_eq→eq [] [] h = refl
text_eq→eq [] (y ∷ ys) h = cc
text_eq→eq (x ∷ xs) [] h = cc
text_eq→eq (x ∷ xs) (y ∷ ys) h = ground (arith, text_eq→eq xs ys)

-- The ASCII part of unicode.IsSpace.
abbrev pub is_space : ℕ → Bool
is_space c = (c == 32) || ((c == 9) || ((c == 10) || ((c == 11) || ((c == 12) || (c == 13)))))

unfoldable pub trim_left : Text → Text
trim_left [] = []
trim_left (c ∷ t) = elim (is_space c) [ true ↦ trim_left t | false ↦ c ∷ t ]

unfoldable pub has_prefix : Text → Text → Bool
has_prefix [] t = true
has_prefix (x ∷ p) [] = false
has_prefix (x ∷ p) (y ∷ t) = (x == y) && has_prefix p t

-- strings.Contains, the part first
unfoldable pub contains : Text → Text → Bool
contains p [] = has_prefix p []
contains p (c ∷ t) = has_prefix p (c ∷ t) || contains p t

-- strings.HasSuffix, the suffix first
unfoldable pub has_suffix : Text → Text → Bool
unfolding has_prefix
has_suffix s t = has_prefix (reverse s) (reverse t)

-- strings.TrimSpace
unfoldable pub trim_space : Text → Text
trim_space t = reverse (trim_left (reverse (trim_left t)))

abbrev cons_head : ℕ → List Text → List Text
cons_head c [] = (c ∷ []) ∷ []
cons_head c (t ∷ ts) = (c ∷ t) ∷ ts

-- strings.Split by a separator of one character.
unfoldable pub split : ℕ → Text → List Text
split sep [] = [] ∷ []
split sep (c ∷ t) = let rest = split sep t in if c == sep then [] ∷ rest else cons_head c rest

-- strings.SplitN by a separator of one character, into `suc n` parts at most.
unfoldable pub split_n : ℕ → ℕ → Text → List Text
split_n sep zero t = t ∷ []
split_n sep (suc n) [] = [] ∷ []
split_n sep (suc n) (c ∷ t) = elim (c == sep) [
  | true ↦ [] ∷ split_n sep n t
  | false ↦ cons_head c (split_n sep (suc n) t)
]

-- The separator does not occur.
abbrev pub Lacks : ℕ → Text → Type 0
Lacks sep [] = Unit
Lacks sep (c ∷ t) = ((c == sep) ≡ false) × Lacks sep t

abbrev pub lacks : ℕ → Text → Bool
lacks sep [] = true
lacks sep (c ∷ t) = not (c == sep) && lacks sep t

pub lacks-Lacks : (sep : ℕ) (t : Text) → lacks sep t ≡ true → Lacks sep t
lacks-Lacks sep [] h = tt
lacks-Lacks sep (c ∷ t) h = (ground (arith, h), lacks-Lacks sep t (ground (arith, h)))

-- A part without the separator, and the separator, are split off.
pub split_n-part :
    (sep n : ℕ) (part rest : Text)
    → Lacks sep part
    → split_n sep (suc n) (part ++ sep ∷ rest) ≡ part ∷ split_n sep n rest
unfolding split_n
split_n-part sep n [] rest h = ground arith
split_n-part sep n (c ∷ part) rest h = ground (arith, split_n-part sep n part rest h.1)

pub split_n-last : (sep n : ℕ) (t : Text) → Lacks sep t → split_n sep n t ≡ t ∷ []
unfolding split_n
split_n-last sep zero t h = refl
split_n-last sep (suc n) [] h = refl
split_n-last sep (suc n) (c ∷ t) h = ground (arith, split_n-last sep (suc n) t h.1)

-- A line is split off a text by the separator that ends it.
pub split-part :
    (sep : ℕ) (part rest : Text)
    → Lacks sep part
    → split sep (part ++ sep ∷ rest) ≡ part ∷ split sep rest
unfolding split
split-part sep [] rest h = ground arith
split-part sep (c ∷ part) rest h = rw (split-part sep part rest h.1, h.0) refl

-- A text without the first character of a part does not contain it.
pub contains-Lacks : (c : ℕ) (p t : Text) → Lacks c t → contains (c ∷ p) t ≡ false
unfolding contains has_prefix
contains-Lacks c p [] h = refl
contains-Lacks c p (x ∷ t) h = ground (arith, h.0, contains-Lacks c p t h.1)

pub Lacks-append : (c : ℕ) (s t : Text) → Lacks c s → Lacks c t → Lacks c (s ++ t)
Lacks-append c [] t h k = k
Lacks-append c (x ∷ s) t h k = (h.0, Lacks-append c s t h.1 k)
