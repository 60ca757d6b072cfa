-- ===== src/Mcp/TokenCache/Laws.antt =====
-- What storing a token makes of the cache: its size, its keys and the entry that it wrote.
use paybond_kit_python.Prelude.{
  ℕ, ◌≤◌, ◌<◌, String, ◌≡◌, refl, false, none, some, [], ◌∷◌, ◌++◌, ltb, length, arith, eq_iff,
  eq_refl, str_eq, Bool-cases, inl, inr,
}
use paybond_kit_python.Prelude.Dict.{
  Dict, lookup, remove, Unique, lookup-remove, insert-Unique, remove-Unique,
}
use paybond_kit_python.Prelude.Eviction.{remove_all-Unique}
use paybond_kit_python.Prelude.Text.{strip}
use paybond_kit_python.Mcp.TokenCache.{
  CacheEntry, TokenCache, evict_expired, pop_overflow, evict_overflow, write_entry, store,
  move_to_end,
}

-- Popping in front stops within the bound.
length-pop_overflow :
    (max_entries : ℕ) (entries : Dict CacheEntry)
    → length (pop_overflow max_entries entries) ≤ max_entries
unfolding pop_overflow
length-pop_overflow max_entries [] = ground arith
length-pop_overflow max_entries (entry ∷ entries) =
    ground (arith, length-pop_overflow max_entries entries)

length-write_entry :
    (now stored_at : ℕ) (key value : String) (cache : TokenCache)
    → length ((write_entry now stored_at key value cache).entries) ≤ cache.max_entries
unfolding write_entry evict_overflow evict_expired
length-write_entry now stored_at key value cache = length-pop_overflow cache.max_entries _

-- A cache within its bound stays so when a token is stored.
pub length-store :
    (now stored_at : ℕ) (intent_id token : String) (cache : TokenCache)
    → length cache.entries ≤ cache.max_entries
    → length ((store now stored_at intent_id token cache).entries) ≤ cache.max_entries
unfolding store
length-store now stored_at intent_id token cache bounded =
    ground (arith, length-write_entry now stored_at (strip intent_id) (strip token) cache, bounded)

-- An entry that stands last survives the popping, if the bound is not 0.
lookup-append_last :
    (key : String) (entry : CacheEntry) (entries : Dict CacheEntry)
    → lookup key entries ≡ none
    → lookup key (entries ++ (key, entry) ∷ []) ≡ some entry
unfolding lookup
lookup-append_last key entry [] absent = simp eq_refl
lookup-append_last key entry ((j, e) ∷ entries) absent =
    ground (arith, lookup-append_last key entry entries, absent)

lookup-pop_last :
    (max_entries : ℕ) (key : String) (entry : CacheEntry) (entries : Dict CacheEntry)
    → 0 < max_entries
    → lookup key entries ≡ none
    → lookup key (pop_overflow max_entries (entries ++ (key, entry) ∷ [])) ≡ some entry
unfolding lookup pop_overflow
lookup-pop_last max_entries key entry [] room absent = ground (arith, eq_refl key, room)
lookup-pop_last max_entries key entry ((j, e) ∷ entries) room absent = ground (
  arith,
  lookup-pop_last max_entries key entry entries,
  lookup-append_last key entry entries,
  room,
  absent,
)

lookup-append_other :
    (j key : String) (entry : CacheEntry) (entries : Dict CacheEntry)
    → lookup j entries ≡ none
    → str_eq key j ≡ false
    → lookup j (entries ++ (key, entry) ∷ []) ≡ none
unfolding lookup
lookup-append_other j key entry [] absent apart = rw apart refl
lookup-append_other j key entry ((i, e) ∷ entries) absent apart =
    ground (arith, lookup-append_other j key entry entries, absent, apart)

append_last-Unique :
    (key : String) (entry : CacheEntry) (entries : Dict CacheEntry)
    → lookup key entries ≡ none
    → Unique entries
    → Unique (entries ++ (key, entry) ∷ [])
unfolding lookup
append_last-Unique key entry [] absent u = (refl, tt)
append_last-Unique key entry ((j, e) ∷ entries) absent u = (
  lookup-append_other j key entry entries u.0 (ground (arith, eq_iff j key, eq_iff key j, absent)),
  append_last-Unique key entry entries (ground (arith, absent)) u.1,
)

pop_overflow-Unique :
    (max_entries : ℕ) (entries : Dict CacheEntry)
    → Unique entries
    → Unique (pop_overflow max_entries entries)
unfolding pop_overflow
pop_overflow-Unique max_entries [] u = u
pop_overflow-Unique max_entries (entry ∷ entries) u =
    elim (Bool-cases (ltb max_entries (length (entry ∷ entries)))) [
      | inl over ↦ rw over (pop_overflow-Unique max_entries entries u.1)
      | inr within ↦ rw within u
    ]

move_to_end-Unique :
    (key : String) (entry : CacheEntry) (entries : Dict CacheEntry)
    → Unique entries
    → Unique (move_to_end key entry entries)
move_to_end-Unique key entry entries u =
    append_last-Unique key entry (remove key entries) (rw lookup-remove (simp eq_refl))
      (remove-Unique key entries u)

pub write_entry-Unique :
    (now stored_at : ℕ) (key value : String) (cache : TokenCache)
    → Unique cache.entries
    → Unique (write_entry now stored_at key value cache).entries
unfolding write_entry evict_overflow evict_expired
write_entry-Unique now stored_at key value cache u =
    pop_overflow-Unique cache.max_entries _
      (move_to_end-Unique key _ _ (insert-Unique key _ _ (remove_all-Unique _ cache.entries u)))

pub lookup-write_entry :
    (now stored_at : ℕ) (key value : String) (cache : TokenCache)
    → 0 < cache.max_entries
    → lookup key (write_entry now stored_at key value cache).entries
      ≡ some (record { token = value; stored_at_monotonic = stored_at })
unfolding write_entry evict_overflow evict_expired
lookup-write_entry now stored_at key value cache room =
    lookup-pop_last cache.max_entries key _ _ room (rw lookup-remove (simp eq_refl))
