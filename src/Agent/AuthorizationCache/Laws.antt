-- ===== src/Agent/AuthorizationCache/Laws.antt =====
-- An entry is taken once, fresh, and by the call that it was made for.
use paybond_kit_python.Prelude.{
  ℕ, ◌-◌, ◌≤◌, String, ◌≡◌, refl, ap, subst, ◌↔◌, true, Option, none, some, arith, eq_iff, str_eq,
  if◌then◌else◌,
}
use paybond_kit_python.Prelude.Eviction.{unless, lookup-remove_where}
use paybond_kit_python.Prelude.Dict.{Dict, lookup, Unique, lookup-remove}
use paybond_kit_python.Agent.AuthorizationCache.{
  CachedAuthorization, Expectation, same_cents, is_expired, evict_expired_authorization_cache,
  check_entry, check_popped, take_valid_cached_authorization,
}

-- an entry that was made for the expected call, and is not older than the time to live
pub record Serves {Auth : Type 0} (ttl now : ℕ) (expected : Expectation)
    (e : CachedAuthorization Auth) : Type 0 where
  pub fresh : now - e.cached_at ≤ ttl
  pub same_operation : e.operation ≡ expected.operation
  pub same_spend : e.requested_spend_cents ≡ expected.requested_spend_cents
  pub same_tool : e.tool_name ≡ expected.tool_name

same_cents_lem : (a b : Option ℕ) → same_cents a b ≡ true → a ≡ b
same_cents_lem none none h = refl
same_cents_lem none (some b) h = cc
same_cents_lem (some a) none h = cc
same_cents_lem (some a) (some b) h = ground arith

same_cents_refl : (a b : Option ℕ) → a ≡ b → same_cents a b ≡ true
same_cents_refl none none h = refl
same_cents_refl none (some b) h = cc
same_cents_refl (some a) none h = cc
same_cents_refl (some a) (some b) h = ground arith

module _ {Auth : Type 0} (ttl now : ℕ) where
  check_entry-Serves :
      (expected : Expectation) (e e' : CachedAuthorization Auth)
      → check_entry ttl now expected e ≡ some e'
      → (e ≡ e') × Serves ttl now expected e
  unfolding check_entry
  check_entry-Serves expected e e' h = (
    ground arith,
    record {
      fresh = ground arith;
      same_operation = ground (arith, eq_iff e.operation expected.operation);
      same_spend =
          ground (arith, same_cents_lem e.requested_spend_cents expected.requested_spend_cents);
      same_tool = ground (arith, eq_iff e.tool_name expected.tool_name);
    },
  )

  check_entry-of_Serves :
      (expected : Expectation) (e : CachedAuthorization Auth)
      → Serves ttl now expected e
      → check_entry ttl now expected e ≡ some e
  unfolding check_entry
  check_entry-of_Serves expected e s = ground (
    arith,
    eq_iff e.operation expected.operation,
    eq_iff e.tool_name expected.tool_name,
    same_cents_refl e.requested_spend_cents expected.requested_spend_cents s.same_spend,
    s.fresh,
    s.same_operation,
    s.same_tool,
  )

  check_popped-Serves :
      (expected : Expectation) (o : Option (CachedAuthorization Auth))
      (e : CachedAuthorization Auth)
      → check_popped ttl now expected o ≡ some e
      → (o ≡ some e) × Serves ttl now expected e
  unfolding check_popped
  check_popped-Serves expected none e h = cc
  check_popped-Serves expected (some d) e h =
      let (same, serves) = check_entry-Serves expected d e h in
      (ap some same, subst (Serves ttl now expected) same serves)

  check_popped-of_Serves :
      (expected : Expectation) (o : Option (CachedAuthorization Auth))
      (e : CachedAuthorization Auth)
      → o ≡ some e
      → Serves ttl now expected e
      → check_popped ttl now expected o ≡ some e
  unfolding check_popped
  check_popped-of_Serves expected o e h s = rw h (check_entry-of_Serves expected e s)

  module _ (cache : Dict (CachedAuthorization Auth)) (key : String) (expected : Expectation) where
    -- An attempt to take returns an entry exactly if one stands under the key that is no older than
    -- the time to live and was made for the same operation, spend and tool; and then it is that one.
    pub take-iff_Serves :
        (e : CachedAuthorization Auth)
        → ((take_valid_cached_authorization ttl now cache key expected).0 ≡ some e)
          ↔ ((lookup key cache ≡ some e) × Serves ttl now expected e)
    unfolding take_valid_cached_authorization
    take-iff_Serves e = (
      check_popped-Serves expected (lookup key cache) e,
      λ h. check_popped-of_Serves expected (lookup key cache) e h.0 h.1,
    )

    -- After an attempt to take, whatever it returned, the key is empty, and the other keys keep
    -- their entries.
    pub lookup-take :
        (k : String)
        → lookup k (take_valid_cached_authorization ttl now cache key expected).1
          ≡ (if str_eq key k then none else lookup k cache)
    unfolding take_valid_cached_authorization
    lookup-take k = lookup-remove key k cache

  fresh_unless :
      (e : CachedAuthorization Auth) (o : Option (CachedAuthorization Auth))
      → (unless (is_expired ttl now) o ≡ some e) ↔ ((o ≡ some e) × (now - e.cached_at ≤ ttl))
  fresh_unless e none = (λ h. cc, λ h. cc)
  fresh_unless e (some d) = (λ h. (ground arith, ground arith), λ h. ground arith)

  -- After an eviction an entry stands under a key exactly if it stood there before and is no older
  -- than the time to live, in a cache in which each key stands once.
  pub lookup-evict :
      (k : String) (cache : Dict (CachedAuthorization Auth)) (e : CachedAuthorization Auth)
      → Unique cache
      → (lookup k (evict_expired_authorization_cache ttl now cache) ≡ some e)
        ↔ ((lookup k cache ≡ some e) × (now - e.cached_at ≤ ttl))
  unfolding evict_expired_authorization_cache
  lookup-evict k cache e u =
      rw (lookup-remove_where (is_expired ttl now) k cache u) (fresh_unless e (lookup k cache))
