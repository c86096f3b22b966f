-- ===== src/GoMap/Size.antt =====
-- A map whose keys all stand in a list is no longer than the list.
use xray_exporter.Common.{
  ◌<◌, ◌≤◌, ◌≡◌, ◌≢◌, inl, inr, true, false, not, none, List, [], ◌∷◌, arith, length, select,
  Bool-cases,
}
use xray_exporter.Text.{Text, text_eq}
use xray_exporter.GoMap.{GoMap, lookup, Distinct, text_eq_iff, text_eq_refl}
use xray_exporter.GoMap.Keys.{has_text}

abbrev without : Text → List Text → List Text
without k = select (λ j. not (text_eq j k))

length-without-le : (k : Text) (ks : List Text) → length (without k ks) ≤ length ks
length-without-le k [] = omega arith
length-without-le k (j ∷ ks) = ground (arith, length-without-le k ks)

length-without :
    (k : Text) (ks : List Text) → has_text k ks ≡ true → length (without k ks) < length ks
length-without k [] h = absurd (ground arith)
length-without k (j ∷ ks) h = ground (arith, length-without k ks, length-without-le k ks)

has_text-without :
    (u k : Text) (ks : List Text)
    → has_text u ks ≡ true
    → text_eq k u ≡ false
    → has_text u (without k ks) ≡ true
has_text-without u k [] h e = h
has_text-without u k (j ∷ ks) h e =
    ground (arith, has_text-without u k ks, text_eq_iff j k, text_eq_iff j u, text_eq_iff k u)

pub length-le {ℓ} :
    {V : Type ℓ} (m : GoMap V) (ks : List Text)
    → Distinct m
    → ((k : Text) → lookup k m ≢ none → has_text k ks ≡ true)
    → length m ≤ length ks
unfolding lookup
length-le [] ks d h = omega arith
length-le ((k, v) ∷ m) ks d h =
    let here : has_text k ks ≡ true = h k (rw (text_eq_refl k) (ground arith)) in
    let rest = length-le m (without k ks) d.1 (λ j there. elim (Bool-cases (text_eq k j)) [
      | inl e ↦ absurd (there (ground (arith, d.0, text_eq_iff k j)))
      | inr e ↦ has_text-without j k ks (h j (rw e there)) e
    ]) in
    omega (arith, rest, length-without k ks here)
