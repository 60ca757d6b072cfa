-- ===== src/Mcp/TokenCache.antt =====
-- src/paybond_kit/mcp_capability_token_cache.py: tokens by intent, bounded in number and in age. Each
-- reading of the monotonic clock is an argument, in ticks; the configuration's number of entries
-- is not negative, as its parser asks.
pub mod Laws
pub mod Answers
mod Tests
use paybond_kit_python.Prelude.{
  ℕ, ◌-◌, String, Bool, true, false, ◌||◌, Option, none, some, List, [], ◌∷◌, ◌++◌, ltb, length,
  str_eq, contains, if◌then◌else◌,
}
use paybond_kit_python.Prelude.Dict.{Dict, lookup, insert, remove}
use paybond_kit_python.Prelude.Eviction.{keys_where, remove_all}
use paybond_kit_python.Prelude.Text.{strip}

-- MCP_CAPABILITY_TOKEN_STORE_TOOLS
abbrev pub store_tools : List String
store_tools =
    "paybond_bootstrap_sandbox_guardrail" ∷ "paybond_create_intent" ∷ "paybond_create_spend_intent"
    ∷ "paybond_fund_intent" ∷ []

unfoldable pub mcp_tool_stores_capability_token : String → Bool
mcp_tool_stores_capability_token tool_name = contains (strip tool_name) store_tools

pub record CacheEntry : Type 0 where
  pub token : String
  pub stored_at_monotonic : ℕ

pub record TokenCache : Type 0 where
  pub ttl_sec : ℕ
  pub max_entries : ℕ
  pub entries : Dict CacheEntry

abbrev pub is_stale : ℕ → ℕ → CacheEntry → Bool
is_stale ttl now entry = ltb ttl (now - entry.stored_at_monotonic)

unfoldable pub evict_expired : ℕ → TokenCache → TokenCache
evict_expired now cache = record cache {
  entries = remove_all (keys_where (is_stale cache.ttl_sec now) cache.entries) cache.entries;
}

-- `OrderedDict.move_to_end` of a key that is there, whose entry is given
abbrev pub move_to_end : String → CacheEntry → Dict CacheEntry → Dict CacheEntry
move_to_end key entry entries = remove key entries ++ (key, entry) ∷ []

-- `while len(entries) > max_entries: entries.popitem(last=False)`
unfoldable pub pop_overflow : ℕ → Dict CacheEntry → Dict CacheEntry
pop_overflow max_entries [] = []
pop_overflow max_entries (entry ∷ entries) =
    let rest = pop_overflow max_entries entries in
    if ltb max_entries (length (entry ∷ entries)) then rest else entry ∷ entries

unfoldable pub evict_overflow : TokenCache → TokenCache
unfolding pop_overflow
evict_overflow cache = record cache { entries = pop_overflow cache.max_entries cache.entries }

-- `now` is the clock at the eviction, `stored_at` at the write.
unfoldable pub write_entry : ℕ → ℕ → String → String → TokenCache → TokenCache
unfolding evict_expired evict_overflow
write_entry now stored_at key value cache =
    let fresh = evict_expired now cache in
    let entry : CacheEntry = record { token = value; stored_at_monotonic = stored_at } in
    evict_overflow
      (record fresh { entries = move_to_end key entry (insert key entry fresh.entries) })

unfoldable pub store : ℕ → ℕ → String → String → TokenCache → TokenCache
unfolding write_entry
store now stored_at intent_id token cache =
    let key = strip intent_id in
    let value = strip token in
    if str_eq key "" || str_eq value "" then cache else write_entry now stored_at key value cache

-- What `resolve` does with the entry that it found.
resolve_found : ℕ → String → TokenCache → Option CacheEntry → Option String × TokenCache
resolve_found now key cache none = (none, cache)
resolve_found now key cache (some entry) =
    if is_stale cache.ttl_sec now entry
    then (none, record cache { entries = remove key cache.entries })
    else (some entry.token, record cache { entries = move_to_end key entry cache.entries })

-- `evicted_at` is the clock at the eviction, `now` at the second test of the age.
unfoldable pub resolve : ℕ → ℕ → String → TokenCache → Option String × TokenCache
unfolding evict_expired resolve_found
resolve evicted_at now intent_id cache =
    let fresh = evict_expired evicted_at cache in
    resolve_found now (strip intent_id) fresh (lookup (strip intent_id) fresh.entries)
