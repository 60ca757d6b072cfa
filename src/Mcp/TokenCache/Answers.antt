-- ===== src/Mcp/TokenCache/Answers.antt =====
-- What the token cache answers: no stale token, and one just stored as long as it is fresh.
use paybond_kit_python.Prelude.{
  ℕ, ◌-◌, ◌≤◌, ◌<◌, String, ◌≡◌, ◌≢◌, refl, sym, subst, Option, none, some, arith, eq_iff,
  if◌then◌else◌, some_inj, ◌↔◌,
}
use paybond_kit_python.Prelude.Dict.{lookup, Unique}
use paybond_kit_python.Prelude.Eviction.{unless, lookup-remove_where, keys_where, remove_all}
use paybond_kit_python.Prelude.Text.{strip}
use paybond_kit_python.Mcp.TokenCache.{
  CacheEntry, TokenCache, is_stale, evict_expired, evict_overflow, write_entry, store,
  resolve_found, resolve,
}
use paybond_kit_python.Mcp.TokenCache.Laws.{write_entry-Unique, lookup-write_entry}

-- What `resolve` answers, by the entry that stands under the key.
abbrev answer : ℕ → ℕ → ℕ → Option CacheEntry → Option String
answer ttl evicted_at now none = none
answer ttl evicted_at now (some e) =
    if is_stale ttl evicted_at e then none else if is_stale ttl now e then none else some e.token

resolve-answer :
    (evicted_at now : ℕ) (intent_id : String) (cache : TokenCache)
    → Unique cache.entries
    → (resolve evicted_at now intent_id cache).0
      ≡ answer cache.ttl_sec evicted_at now (lookup (strip intent_id) cache.entries)
unfolding resolve evict_expired resolve_found
resolve-answer evicted_at now intent_id cache u =
    rw (lookup-remove_where (is_stale cache.ttl_sec evicted_at) (strip intent_id) cache.entries u)
      (go (lookup (strip intent_id) cache.entries))
  where
    go :
        (o : Option CacheEntry)
        → (resolve_found now
            (strip intent_id)
            (record cache {
              entries =
                  remove_all
                    (keys_where (is_stale cache.ttl_sec evicted_at) cache.entries)
                    cache.entries;
            })
            (unless (is_stale cache.ttl_sec evicted_at) o)).0
          ≡ answer cache.ttl_sec evicted_at now o
    go none = refl
    go (some e) = ground arith

answer-iff_fresh :
    (ttl evicted_at now : ℕ) (o : Option CacheEntry) (token : String)
    → (answer ttl evicted_at now o ≡ some token) ↔ (
        (e : CacheEntry) × (o ≡ some e)
        × (e.token ≡ token)
        × (evicted_at - e.stored_at_monotonic ≤ ttl)
        × (now - e.stored_at_monotonic ≤ ttl))
answer-iff_fresh ttl evicted_at now none token =
    (λ h. cc h, λ h. let (e, same, _, _, _) = h in cc same)
answer-iff_fresh ttl evicted_at now (some e) token = (
  λ h. (e, refl, ground (arith, h), ground (arith, h), ground (arith, h)),
  λ h.
      let (d, same, named, early, late) = h in
      subst (λ e. answer ttl evicted_at now (some e) ≡ some token) (sym (some_inj same))
        (ground (arith, early, late, named)),
)

-- `resolve` answers with a token exactly if its entry is there and is no older than the time to
-- live at both readings of the clock.
pub resolve-iff_fresh :
    (evicted_at now : ℕ) (intent_id token : String) (cache : TokenCache)
    → Unique cache.entries
    → ((resolve evicted_at now intent_id cache).0 ≡ some token) ↔ (
        (e : CacheEntry) × (lookup (strip intent_id) cache.entries ≡ some e)
        × (e.token ≡ token)
        × (evicted_at - e.stored_at_monotonic ≤ cache.ttl_sec)
        × (now - e.stored_at_monotonic ≤ cache.ttl_sec))
resolve-iff_fresh evicted_at now intent_id token cache u =
    rw (resolve-answer evicted_at now intent_id cache u)
      (answer-iff_fresh cache.ttl_sec evicted_at now (lookup (strip intent_id) cache.entries) token)

store-filled :
    (now stored_at : ℕ) (intent_id token : String) (cache : TokenCache)
    → strip intent_id ≢ ""
    → strip token ≢ ""
    → store now stored_at intent_id token cache
      ≡ write_entry now stored_at (strip intent_id) (strip token) cache
unfolding store
store-filled now stored_at intent_id token cache id_filled token_filled =
    ground (arith, eq_iff (strip intent_id) "", eq_iff (strip token) "", id_filled, token_filled)

write_entry-ttl :
    (now stored_at : ℕ) (key value : String) (cache : TokenCache)
    → (write_entry now stored_at key value cache).ttl_sec ≡ cache.ttl_sec
unfolding write_entry evict_overflow evict_expired
write_entry-ttl now stored_at key value cache = refl

resolve-write_entry :
    (now stored_at evicted_at asked_at : ℕ) (intent_id value : String) (cache : TokenCache)
    → Unique cache.entries
    → 0 < cache.max_entries
    → evicted_at - stored_at ≤ cache.ttl_sec
    → asked_at - stored_at ≤ cache.ttl_sec
    → (resolve evicted_at asked_at intent_id
        (write_entry now stored_at (strip intent_id) value cache)).0
      ≡ some value
resolve-write_entry now stored_at evicted_at asked_at intent_id value cache u room early late =
    let written = write_entry now stored_at (strip intent_id) value cache in
    let same = write_entry-ttl now stored_at (strip intent_id) value cache in
    (resolve-iff_fresh evicted_at asked_at intent_id value written
        (write_entry-Unique now stored_at (strip intent_id) value cache u)).1
      (
        record { token = value; stored_at_monotonic = stored_at },
        lookup-write_entry now stored_at (strip intent_id) value cache room,
        refl,
        rw same early,
        rw same late,
      )

-- When a token is stored and the cache is asked for its intent directly afterwards, with no call in
-- between, the answer is that token, if the cache has room for one entry, neither text is blank, and
-- at both readings of the clock the token is no older than the time to live.
pub resolve-store :
    (now stored_at evicted_at asked_at : ℕ) (intent_id token : String) (cache : TokenCache)
    → Unique cache.entries
    → 0 < cache.max_entries
    → strip intent_id ≢ ""
    → strip token ≢ ""
    → evicted_at - stored_at ≤ cache.ttl_sec
    → asked_at - stored_at ≤ cache.ttl_sec
    → (resolve evicted_at asked_at intent_id (store now stored_at intent_id token cache)).0
      ≡ some (strip token)
resolve-store now stored_at evicted_at asked_at intent_id token cache u room id_filled token_filled
      early late =
    rw (store-filled now stored_at intent_id token cache id_filled token_filled) (
      resolve-write_entry now stored_at evicted_at asked_at intent_id (strip token) cache u room
        early late)
