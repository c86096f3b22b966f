-- ===== src/LogParser/Filter/Keeping.antt =====
-- What the second locked section keeps true of the cache.
use xray_exporter.Common.{
  ℕ, suc, ◌≤◌, ◌≡◌, refl, sym, ap, subst, inl, inr, Bool, none, some, List, ◌∷◌, arith, length, ltb,
  Bool-cases, Option-cases, ltb-eq-false,
}
use xray_exporter.Text.{Text}
use xray_exporter.GoMap.{lookup, insert, lookup-insert, lookup-delete, Distinct, text_eq_iff}
use xray_exporter.LogParser.Filter.Cache.{
  Item, Entry, Cache, take_last, evict, push_front, keep_at, keep,
}
use xray_exporter.LogParser.Filter.Entries.{IsTaken, take_last-IsTaken}
use xray_exporter.LogParser.Filter.Sound.{element_of, IsList, IsSound, moved}

module _ (answer : Text → Bool) (size : ℕ) where
  -- The list with a new address in front.
  pushed-IsList :
      (ip : Text) (next : ℕ) (l : List Entry)
      → IsList answer size next l
      → lookup ip l ≡ none
      → IsList answer size (suc next) ((ip, record { element = next; result = answer ip }) ∷ l)
  unfolding lookup
  pushed-IsList ip next l v h = record {
    distinct = (h, v.distinct);
    apart = λ j k x y p q same. ground (
      arith,
      p,
      q,
      text_eq_iff ip j,
      text_eq_iff ip k,
      v.used j x,
      v.used k y,
      v.apart j k x y,
      same,
    );
    used = λ j x p. ground (arith, p, v.used j x, text_eq_iff ip j);
    right = λ j x p. ground (arith, p, v.right j x, text_eq_iff ip j);
  }

  kept_lookup :
      (l rest : List Entry) (e : Entry)
      → IsTaken l e rest
      → (j : Text) (x : Item) → lookup j rest ≡ some x
      → lookup j l ≡ some x
  kept_lookup l rest e t j x h = ground (arith, t.others j, t.gone, text_eq_iff e.0 j, h)

  IsTaken-IsList :
      (next : ℕ) (l rest : List Entry) (e : Entry)
      → IsTaken l e rest
      → IsList answer size next l
      → IsList answer size next rest
  IsTaken-IsList next l rest e t v =
      let was = kept_lookup l rest e t in
      record {
        distinct = t.distinct;
        apart = λ j k x y p q. v.apart j k x y (was j x p) (was k y q);
        used = λ j x p. v.used j x (was j x p);
        right = λ j x p. v.right j x (was j x p);
      }

  -- With one entry more than there is room for, eviction makes the cache sound.
  evict-IsSound :
      (c : Cache) (e : Entry) (l : List Entry)
      → c.lru ≡ e ∷ l
      → IsList answer size c.next c.lru
      → ((j : Text) → lookup j c.cache ≡ element_of (lookup j c.lru))
      → c.max_cache_size ≡ size
      → length l ≤ size
      → IsSound answer size (evict c)
  unfolding evict
  evict-IsSound c e l h v agrees limit room =
      let (last, rest, run, t) = take_last-IsTaken e l (subst (λ m. Distinct m) h v.distinct) in
      let t : IsTaken c.lru last rest = subst (λ m. IsTaken m last rest) (sym h) t in
      let run : take_last c.lru ≡ some (last, rest) = rw h run in
      rw (evict, run)
        (record {
          limit = limit;
          entries = IsTaken-IsList c.next c.lru rest last t v;
          agrees = λ j. ground (
            arith,
            lookup-delete last.0 j c.cache,
            agrees j,
            t.others j,
            t.gone,
            text_eq_iff last.0 j,
          );
          room = omega (arith, t.smaller, ap length h, room);
        })

  push_front-IsSound :
      (ip : Text) (c : Cache)
      → IsSound answer size c
      → lookup ip c.cache ≡ none
      → IsSound answer size (push_front ip (answer ip) c)
  unfolding push_front lookup
  push_front-IsSound ip c v h =
      let absent : lookup ip c.lru ≡ none = ground (arith, v.agrees ip, h) in
      let item : Item = record { element = c.next; result = answer ip } in
      let pushed : Cache = record c {
        cache = insert ip c.next c.cache;
        lru = (ip, item) ∷ c.lru;
        next = suc c.next;
      } in
      let list = pushed-IsList ip c.next c.lru v.entries absent in
      let agrees : (j : Text) → lookup j pushed.cache ≡ element_of (lookup j pushed.lru) =
        λ j. ground (arith, lookup-insert ip j c.next c.cache, v.agrees j) in
      elim (Bool-cases (ltb c.max_cache_size (suc (length c.lru)))) [
        | inl full ↦ rw full (evict-IsSound pushed (ip, item) c.lru refl list agrees v.limit v.room)
        | inr spare ↦ rw spare (record {
          entries = list;
          limit = v.limit;
          agrees = agrees;
          room = omega (arith, ltb-eq-false c.max_cache_size (suc (length c.lru)) spare, v.limit);
        })
      ]

  pub keep-IsSound :
      (ip : Text) (c : Cache)
      → IsSound answer size c
      → (next : Cache) × (keep ip (answer ip) c ≡ some next) × IsSound answer size next
  unfolding keep keep_at
  keep-IsSound ip c v = elim (Option-cases (lookup ip c.cache)) [
    | inl e ↦ (push_front ip (answer ip) c, rw e refl, push_front-IsSound ip c v e)
    | inr (id, e) ↦
        let (x, rest, run, sound, named, right) = moved answer size ip c id v e in
        (
          record c { lru = x ∷ rest },
          rw (e, keep_at, run)
              (ap (λ b. some (record c { lru = (x.0, record x.1 { result = b }) ∷ rest }))
                (sym right)),
          sound,
        )
  ]
