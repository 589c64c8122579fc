-- ===== src/Version/Expectations.antt =====
-- Expected compatibility: what SetCompatibility records and IsCompatible reads.
use linux_application_develo.Shared.{
  ◌≡◌, refl, sym, Bool, true, false, some, [], ◌∷◌, arith, inl, inr, Bool-cases, if◌then◌else◌,
}
use linux_application_develo.Shared.Text.{Text, text_eq, text_eq_refl, text_eq→eq}
use linux_application_develo.Version.{
  TextMap, find, set, Matrix, Version, Client, pair_key, set_compatibility, is_compatible,
}

text_eq_same : (i k j : Text) → text_eq i k ≡ true → text_eq i j ≡ text_eq k j
text_eq_same i k j h = rw (text_eq→eq i k h)

not_both : (i k j : Text) → text_eq i k ≡ false → text_eq i j ≡ true → text_eq k j ≡ false
not_both i k j h e = elim (Bool-cases (text_eq k j)) [
  | inl f ↦
      absurd (ground (arith, h, text_eq_refl k, rw (text_eq→eq i j e, sym (text_eq→eq k j f)) at h))
  | inr f ↦ f
]

module _ {ℓ} {V : Type ℓ} where
  pub find-set :
      (m : TextMap V) (k j : Text) (v : V)
      → find (set m k v) j ≡ (if text_eq k j then some v else find m j)
  unfolding find set
  find-set [] k j v = refl
  find-set ((i, w) ∷ m) k j v = ground (arith, find-set m k j v, text_eq_same i k j, not_both i k j)

-- After SetCompatibility, IsCompatible answers what was set for the pairs with that key, and what it
-- did before for all others.
pub is_compatible-set_compatibility :
    (m : Matrix) (server server' : Version) (client client' : Client) (compatible : Bool)
    → is_compatible (set_compatibility m server client compatible) server' client' ≡ (
        if text_eq (pair_key server client) (pair_key server' client')
        then compatible
        else is_compatible m server' client')
unfolding is_compatible set_compatibility
is_compatible-set_compatibility m server server' client client' compatible =
    elim (Bool-cases (text_eq (pair_key server client) (pair_key server' client'))) [
      | inl e ↦ rw (find-set, e) refl
      | inr e ↦ rw (find-set, e) refl
    ]
