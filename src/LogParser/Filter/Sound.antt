-- ===== src/LogParser/Filter/Sound.antt =====
-- What the first locked section keeps true of the cache, and what it answers.
use xray_exporter.Common.{
  ℕ, ◌≤◌, ◌<◌, ◌≡◌, refl, sym, ap, ◌∙◌, inl, inr, Bool, Option, none, some, List, ◌∷◌, arith,
  length, Option-cases,
}
use xray_exporter.Text.{Text}
use xray_exporter.GoMap.{lookup, Distinct, text_eq_refl}
use xray_exporter.LogParser.Filter.Cache.{Item, Entry, Cache, take_out, look_at, find}
use xray_exporter.LogParser.Filter.Entries.{IsTaken, take_out-IsTaken}

abbrev pub element_of : Option Item → Option ℕ
element_of none = none
element_of (some i) = some i.element

module _ (answer : Text → Bool) (size : ℕ) where
  -- The entries have different addresses and different elements, none of them `next` or later, and each
  -- has the right answer.
  pub record IsList (next : ℕ) (l : List Entry) : Type 0 where
    pub distinct : Distinct l
    pub apart :
        (j k : Text) (x y : Item)
        → lookup j l ≡ some x
        → lookup k l ≡ some y
        → x.element ≡ y.element
        → j ≡ k
    pub used : (j : Text) (x : Item) → lookup j l ≡ some x → x.element < next
    pub right : (j : Text) (x : Item) → lookup j l ≡ some x → x.result ≡ answer j

  -- The map has exactly the elements of the list, which has at most as many entries as there is room.
  pub record IsSound (c : Cache) : Type 0 where
    pub entries : IsList c.next c.lru
    pub agrees : (j : Text) → lookup j c.cache ≡ element_of (lookup j c.lru)
    pub limit : c.max_cache_size ≡ size
    pub room : length c.lru ≤ size

  -- A list with the same look-ups is as good.
  IsList-same :
      (next : ℕ) (l m : List Entry)
      → IsList next l
      → Distinct m
      → ((j : Text) → lookup j m ≡ lookup j l)
      → IsList next m
  IsList-same next l m v d same = record {
    distinct = d;
    apart = λ j k x y p q. v.apart j k x y (sym (same j) ∙ p) (sym (same k) ∙ q);
    used = λ j x p. v.used j x (sym (same j) ∙ p);
    right = λ j x p. v.right j x (sym (same j) ∙ p);
  }

  taken_front :
      (l rest : List Entry) (e : Entry)
      → IsTaken l e rest
      → (j : Text) → lookup j (e ∷ rest) ≡ lookup j l
  unfolding lookup
  taken_front l rest e t j = sym (t.others j)

  -- An address whose element the map has stands in the list.
  listed :
      (ip : Text) (c : Cache) (id : ℕ)
      → IsSound c
      → lookup ip c.cache ≡ some id
      → (i : Item) × (lookup ip c.lru ≡ some i) × (i.element ≡ id)
  listed ip c id v h = elim (Option-cases (lookup ip c.lru)) [
    | inl e ↦ absurd (ground (arith, v.agrees ip))
    | inr (i, e) ↦ (i, e, ground (arith, v.agrees ip))
  ]

  -- Moving an element to the front keeps the cache sound, and finds the entry of the address.
  pub moved :
      (ip : Text) (c : Cache) (id : ℕ)
      → IsSound c
      → lookup ip c.cache ≡ some id
      → (e : Entry) × (rest : List Entry) × (take_out id c.lru ≡ some (e, rest))
        × IsSound (record c { lru = e ∷ rest })
        × (e.0 ≡ ip)
        × (e.1.result ≡ answer ip)
  unfolding lookup
  moved ip c id v h =
      let (i, there, same_id) = listed ip c id v h in
      let (e, rest, run, t, at) = take_out-IsTaken id c.lru ip i v.entries.distinct there same_id in
      let same = taken_front c.lru rest e t in
      let held : lookup e.0 c.lru ≡ some e.1 = ground (arith, t.others e.0, text_eq_refl e.0) in
      let named : e.0 ≡ ip = v.entries.apart e.0 ip e.1 i held there (at ∙ sym same_id) in
      (
        e,
        rest,
        run,
        record {
          entries = IsList-same c.next c.lru (e ∷ rest) v.entries (t.gone, t.distinct) same;
          limit = v.limit;
          agrees = λ j. v.agrees j ∙ ap element_of (sym (same j));
          room = omega (arith, t.smaller, v.room);
        },
        named,
        v.entries.right e.0 e.1 held ∙ ap answer named,
      )

  pub find-IsSound :
      (ip : Text) (c : Cache)
      → IsSound c
      → (found : Option Bool) × (next : Cache) × (find ip c ≡ some (next, found))
        × IsSound next
        × ((b : Bool) → found ≡ some b → b ≡ answer ip)
  unfolding find look_at
  find-IsSound ip c v = elim (Option-cases (lookup ip c.cache)) [
    | inl e ↦ (none, c, rw e refl, v, λ b h. absurd (ground (arith, h)))
    | inr (id, e) ↦
        let (x, rest, run, sound, named, right) = moved ip c id v e in
        (
          some x.1.result,
          record c { lru = x ∷ rest },
          rw (e, look_at, run) refl,
          sound,
          λ b h. ground (arith, h, right),
        )
  ]
