-- ===== src/Mcp/TokenCache/Tests.antt =====
-- A cache of two tokens, and the theorems at it.
use paybond_kit_python.Prelude.{◌-◌, ◌≤◌, ◌≡◌, ◌↔◌, refl, true, none, some, [], ◌∷◌, length, arith}
use paybond_kit_python.Prelude.Dict.{lookup, insert, remove}
use paybond_kit_python.Prelude.Eviction.{keys_where, remove_all}
use paybond_kit_python.Prelude.Text.{strip}
use paybond_kit_python.Mcp.TokenCache.{
  CacheEntry, TokenCache, mcp_tool_stores_capability_token, evict_expired, store, resolve,
}
use paybond_kit_python.Mcp.TokenCache.Laws.{length-store}
use paybond_kit_python.Mcp.TokenCache.Answers.{resolve-iff_fresh, resolve-store}

abbrev entry_a : CacheEntry
entry_a = record { token = "ta"; stored_at_monotonic = 100 }

abbrev entry_b : CacheEntry
entry_b = record { token = "tb"; stored_at_monotonic = 200 }

abbrev full : TokenCache
full = record { ttl_sec = 900; max_entries = 2; entries = ("a", entry_a) ∷ ("b", entry_b) ∷ [] }

stores_of_create : mcp_tool_stores_capability_token " paybond_create_intent" ≡ true
unfolding mcp_tool_stores_capability_token strip
stores_of_create = refl

-- The oldest entry goes.
stores_third :
    (store 300 301 "c" " tc " full).entries
    ≡ ("b", entry_b) ∷ ("c", record { token = "tc"; stored_at_monotonic = 301 }) ∷ []
unfolding store strip lookup insert remove keys_where remove_all
stores_third = refl

forgets_stale : (resolve 1001 1001 "a" full).0 ≡ none
unfolding resolve evict_expired strip lookup insert remove keys_where remove_all
forgets_stale = refl

length-store_example : length ((store 300 301 "c" "tc" full).entries) ≤ 2
length-store_example = length-store 300 301 "c" "tc" full (ground arith)

resolve-iff_fresh_example : ((resolve 300 300 "a" full).0 ≡ some "ta") ↔ (
    (e : CacheEntry) × (lookup (strip "a") full.entries ≡ some e)
    × (e.token ≡ "ta")
    × (300 - e.stored_at_monotonic ≤ 900)
    × (300 - e.stored_at_monotonic ≤ 900))
unfolding lookup
resolve-iff_fresh_example = resolve-iff_fresh 300 300 "a" "ta" full (refl, (refl, tt))

resolve-store_example : (resolve 400 401 "c" (store 300 301 "c" "tc" full)).0 ≡ some "tc"
unfolding lookup strip
resolve-store_example =
    resolve-store 300 301 400 401 "c" "tc" full (refl, (refl, tt)) (ground arith) (λ p. cc p)
      (λ p. cc p) (ground arith) (ground arith)
