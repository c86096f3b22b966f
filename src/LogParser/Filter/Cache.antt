-- ===== src/LogParser/Filter/Cache.antt =====
-- The cache of `IPFilter`: a map from an address to an element of a list in the order of use. The lock
-- is released between the look-up and the storing of a new answer, so other calls can come between.
use xray_exporter.Common.{
  ℕ, suc, Bool, Option, none, some, List, [], ◌∷◌, ◌==◌, ltb, length, if◌then◌else◌,
}
use xray_exporter.Text.{Text}
use xray_exporter.GoMap.{GoMap, lookup, insert, delete}

-- A `*list.Element` is its number; `cacheItem` has the answer beside the address.
pub record Item : Type 0 where
  pub element : ℕ
  pub result : Bool

abbrev pub Entry : Type 0
Entry = Text × Item

-- `cache`, `lru` (most recently used first) and `maxCacheSize`; `next` is an element not used yet.
pub record Cache : Type 0 where
  pub cache : GoMap ℕ
  pub lru : List Entry
  pub next : ℕ
  pub max_cache_size : ℕ

-- container/list: the entry of an element, and the list without it.
unfoldable pub take_out : ℕ → List Entry → Option (Entry × List Entry)
take_out id [] = none
take_out id (e ∷ l) =
    if e.1.element == id
    then some (e, l)
    else elim (take_out id l) [ none ↦ none | some (found, rest) ↦ some (found, e ∷ rest) ]

-- The last entry, and the list without it.
unfoldable pub take_last : List Entry → Option (Entry × List Entry)
take_last [] = none
take_last (e ∷ []) = some (e, [])
take_last (e ∷ f ∷ l) = elim (take_last (f ∷ l)) [
  | none ↦ none
  | some (found, rest) ↦ some (found, e ∷ rest)
]

-- The first locked section: the answer if it is cached, with its element moved to the front. An
-- element that the list has lost gives `none`.
unfoldable pub look_at : Cache → Option ℕ → Option (Cache × Option Bool)
look_at c none = some (c, none)
look_at c (some id) = elim (take_out id c.lru) [
  | none ↦ none
  | some (e, rest) ↦ some (record c { lru = e ∷ rest }, some e.1.result)
]

unfoldable pub find : Text → Cache → Option (Cache × Option Bool)
unfolding look_at take_out
find ip c = look_at c (lookup ip c.cache)

-- Eviction of the least recently used entry.
unfoldable pub evict : Cache → Cache
unfolding take_last
evict c = elim (take_last c.lru) [
  | none ↦ c
  | some (oldest, rest) ↦ record c { lru = rest; cache = delete oldest.0 c.cache }
]

unfoldable pub push_front : Text → Bool → Cache → Cache
unfolding evict
push_front ip result c =
    let pushed = record c {
      cache = insert ip c.next c.cache;
      lru = (ip, record { element = c.next; result = result }) ∷ c.lru;
      next = suc c.next;
    } in
    let evicted = evict pushed in
    if ltb c.max_cache_size (length pushed.lru) then evicted else pushed

-- The second locked section, on an element that is there or not.
unfoldable pub keep_at : Text → Bool → Cache → Option ℕ → Option Cache
unfolding push_front
keep_at ip result c none = some (push_front ip result c)
keep_at ip result c (some id) = elim (take_out id c.lru) [
  | none ↦ none
  | some (e, rest) ↦ some (record c { lru = (e.0, record e.1 { result = result }) ∷ rest })
]

unfoldable pub keep : Text → Bool → Cache → Option Cache
unfolding keep_at
keep ip result c = keep_at ip result c (lookup ip c.cache)

unfoldable pub new_cache : Cache
new_cache = record { cache = []; lru = []; next = 0; max_cache_size = 100_000 }
