-- ===== src/Agent/AuthorizationCache/Tests.antt =====
-- A cache of two authorizations, and the theorems at it.
use paybond_kit_python.Prelude.{
  ℕ, ◌-◌, ◌≤◌, ◌≡◌, ◌↔◌, refl, none, some, ◌∷◌, [], if◌then◌else◌, str_eq,
}
use paybond_kit_python.Prelude.Dict.{Dict, lookup, remove}
use paybond_kit_python.Agent.AuthorizationCache.{
  CachedAuthorization, Expectation, evict_expired_authorization_cache,
  take_valid_cached_authorization,
}
use paybond_kit_python.Agent.AuthorizationCache.Laws.{
  Serves, take-iff_Serves, lookup-take, lookup-evict,
}

abbrev fresh_pay : CachedAuthorization ℕ
fresh_pay = record {
  auth = 7;
  operation = "pay";
  requested_spend_cents = some 250;
  tool_name = "pay_vendor";
  cached_at = 90;
  policy_digest = none;
  authorized_at_ms = 1000;
}

abbrev stale_mail : CachedAuthorization ℕ
stale_mail = record fresh_pay { operation = "mail"; tool_name = "mail"; cached_at = 10 }

abbrev two_entries : Dict (CachedAuthorization ℕ)
two_entries = ("call_1", fresh_pay) ∷ ("call_2", stale_mail) ∷ []

abbrev expect_pay : Expectation
expect_pay = record {
  operation = "pay";
  requested_spend_cents = some 250;
  tool_name = "pay_vendor";
}

takes_fresh :
    (take_valid_cached_authorization 60 100 two_entries "call_1" expect_pay).0 ≡ some fresh_pay
unfolding take_valid_cached_authorization lookup remove
takes_fresh = refl

refuses_other_call :
    (take_valid_cached_authorization 60 100 two_entries "call_2" expect_pay).0 ≡ none
unfolding take_valid_cached_authorization lookup remove
refuses_other_call = refl

take-iff_Serves_example :
    ((take_valid_cached_authorization 60 100 two_entries "call_1" expect_pay).0 ≡ some fresh_pay)
    ↔ ((lookup "call_1" two_entries ≡ some fresh_pay) × Serves 60 100 expect_pay fresh_pay)
take-iff_Serves_example = take-iff_Serves 60 100 two_entries "call_1" expect_pay fresh_pay

lookup-take_example :
    lookup "call_2" (take_valid_cached_authorization 60 100 two_entries "call_1" expect_pay).1
    ≡ (if str_eq "call_1" "call_2" then none else lookup "call_2" two_entries)
lookup-take_example = lookup-take 60 100 two_entries "call_1" expect_pay "call_2"

lookup-evict_example :
    (lookup "call_2" (evict_expired_authorization_cache 60 100 two_entries) ≡ some stale_mail)
    ↔ ((lookup "call_2" two_entries ≡ some stale_mail) × (100 - 10 ≤ 60))
unfolding lookup
lookup-evict_example = lookup-evict 60 100 "call_2" two_entries stale_mail (refl, (refl, tt))
