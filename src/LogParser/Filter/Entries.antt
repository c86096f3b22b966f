-- ===== src/LogParser/Filter/Entries.antt =====
-- What the list operations of the cache do to the entries.
use xray_exporter.Common.{
  ℕ, suc, ◌≡◌, refl, inl, inr, none, some, List, [], ◌∷◌, ◌==◌, ==_iff, arith, length,
  if◌then◌else◌, Bool-cases,
}
use xray_exporter.Text.{Text, text_eq}
use xray_exporter.GoMap.{lookup, Distinct, text_eq_iff}
use xray_exporter.LogParser.Filter.Cache.{Item, Entry, take_out, take_last}

-- One entry was taken out of a list, and the rest kept.
pub record IsTaken (l : List Entry) (e : Entry) (rest : List Entry) : Type 0 where
  pub others : (j : Text) → lookup j l ≡ (if text_eq e.0 j then some e.1 else lookup j rest)
  pub gone : lookup e.0 rest ≡ none
  pub distinct : Distinct rest
  pub smaller : length l ≡ suc (length rest)

IsTaken-later :
    (k : Text) (i : Item) (l : List Entry) (e : Entry) (rest : List Entry)
    → lookup k l ≡ none
    → IsTaken l e rest
    → IsTaken ((k, i) ∷ l) e ((k, i) ∷ rest)
unfolding lookup
IsTaken-later k i l e rest absent t =
    let at_k = t.others k in
    let same = text_eq_iff e.0 k in
    record {
      others = λ j. ground (arith, at_k, same, t.others j, text_eq_iff k j, text_eq_iff e.0 j);
      gone = ground (arith, at_k, same, t.gone, text_eq_iff k e.0);
      distinct = (ground (arith, at_k), t.distinct);
      smaller = omega (arith, t.smaller);
    }

IsTaken-head : (e : Entry) (l : List Entry) → Distinct (e ∷ l) → IsTaken (e ∷ l) e l
unfolding lookup
IsTaken-head e l d = record { others = λ j. refl; gone = d.0; distinct = d.1; smaller = refl }

-- The element of an entry in the list is found, and its entry taken out.
pub take_out-IsTaken :
    (id : ℕ) (l : List Entry) (k : Text) (i : Item)
    → Distinct l
    → lookup k l ≡ some i
    → i.element ≡ id
    → (e : Entry) × (rest : List Entry) × (take_out id l ≡ some (e, rest))
      × IsTaken l e rest
      × (e.1.element ≡ id)
unfolding take_out lookup
take_out-IsTaken id [] k i d h q = absurd (ground arith)
take_out-IsTaken id ((j, x) ∷ l) k i d h q = elim (Bool-cases (x.element == id)) [
  | inl found ↦ ((j, x), l, rw found refl, IsTaken-head (j, x) l d, (==_iff x.element id).0 found)
  | inr other ↦
      let further : lookup k l ≡ some i = ground (arith, ==_iff x.element id) in
      let (e, rest, run, t, same) = take_out-IsTaken id l k i d.1 further q in
      (e, (j, x) ∷ rest, rw (other, take_out, run) refl, IsTaken-later j x l e rest d.0 t, same)
]

pub take_last-IsTaken :
    (e : Entry) (l : List Entry)
    → Distinct (e ∷ l)
    → (last : Entry) × (rest : List Entry) × (take_last (e ∷ l) ≡ some (last, rest))
      × IsTaken (e ∷ l) last rest
unfolding take_last
take_last-IsTaken e [] d = (e, [], refl, IsTaken-head e [] d)
take_last-IsTaken (k, i) (f ∷ l) d =
    let (last, rest, run, t) = take_last-IsTaken f l d.1 in
    (last, (k, i) ∷ rest, rw (take_last, run) refl, IsTaken-later k i (f ∷ l) last rest d.0 t)
