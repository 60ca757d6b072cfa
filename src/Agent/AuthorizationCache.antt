-- ===== src/Agent/AuthorizationCache.antt =====
-- src/paybond_kit/agent/authorization_cache.py: authorizations that wait for their execution. Times
-- are ticks of the monotonic clock; a difference that Python makes negative is 0 here, and neither
-- is above the time to live.
pub mod Laws
mod Tests
use paybond_kit_python.Prelude.{
  ℕ, ◌-◌, String, Bool, true, false, not, ◌||◌, Option, none, some, List, [], ◌∷◌, ltb, ◌==◌,
  str_eq, if◌then◌else◌,
}
use paybond_kit_python.Prelude.Eviction.{keys_where, remove_all}
use paybond_kit_python.Prelude.Dict.{Dict, lookup, remove}

-- The authorization itself is kept as it is.
pub record CachedAuthorization (Auth : Type 0) : Type 0 where
  pub auth : Auth
  pub operation : String
  pub requested_spend_cents : Option ℕ
  pub tool_name : String
  pub cached_at : ℕ
  pub policy_digest : Option String
  pub authorized_at_ms : ℕ

pub record Expectation : Type 0 where
  pub operation : String
  pub requested_spend_cents : Option ℕ
  pub tool_name : String

-- `==` on whole numbers that may be `None`
abbrev pub same_cents : Option ℕ → Option ℕ → Bool
same_cents none none = true
same_cents (some a) (some b) = a == b
same_cents _ _ = false

module _ {Auth : Type 0} where
  abbrev pub is_expired : ℕ → ℕ → CachedAuthorization Auth → Bool
  is_expired ttl now entry = ltb ttl (now - entry.cached_at)

  unfoldable pub evict_expired_authorization_cache :
      ℕ → ℕ → Dict (CachedAuthorization Auth) → Dict (CachedAuthorization Auth)
  evict_expired_authorization_cache ttl now cache =
      remove_all (keys_where (is_expired ttl now) cache) cache

  -- The tests on an entry that was popped.
  check_entry : ℕ → ℕ → Expectation → CachedAuthorization Auth → Option (CachedAuthorization Auth)
  check_entry ttl now expected cached =
      if is_expired ttl now cached
      then none
      else if not (str_eq cached.operation expected.operation)
      then none
      else if not (same_cents cached.requested_spend_cents expected.requested_spend_cents)
      then none
      else if not (str_eq cached.tool_name expected.tool_name)
      then none
      else some cached

  check_popped :
      ℕ → ℕ → Expectation → Option (CachedAuthorization Auth) → Option (CachedAuthorization Auth)
  unfolding check_entry
  check_popped ttl now expected none = none
  check_popped ttl now expected (some cached) = check_entry ttl now expected cached

  unfoldable pub take_valid_cached_authorization :
      ℕ
      → ℕ
      → Dict (CachedAuthorization Auth)
      → String
      → Expectation
      → Option (CachedAuthorization Auth) × Dict (CachedAuthorization Auth)
  unfolding check_popped
  take_valid_cached_authorization ttl now cache cache_key expected =
      (check_popped ttl now expected (lookup cache_key cache), remove cache_key cache)
