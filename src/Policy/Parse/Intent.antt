-- ===== src/Policy/Parse/Intent.antt =====
-- `_parse_policy_binding`, `_parse_budget`, `_parse_intent` and their override versions.
use paybond_kit_python.Prelude.{
  ℕ, ◌+◌, String, ◌<>◌, true, false, not, Option, none, some, List, [], ◌∷◌, ◌++◌, contains,
}
use paybond_kit_python.Prelude.Dict.{Dict, lookup, remove}
use paybond_kit_python.Prelude.Outcome.{returned, ◌>>=◌, ◌>>◌}
use paybond_kit_python.Policy.Value.{
  Value, Number, rational, bool, int, negative, float, negative_float, list, elements, get,
}
use paybond_kit_python.Policy.Schema.{
  Binding, BindingOverride, Budget, IntentSection, IntentOverride,
}
use paybond_kit_python.Policy.Parse.Format.{
  is_identifier, is_head_digest, is_currency, is_tool_name,
}
use paybond_kit_python.Policy.Parse.Expect.{
  Parsed, at, item, fail, check, expect_mapping, expect_int, expect_format, optional,
  reject_unknown, require_some, not_a_number, below_minimum, not_an_array, not_unique,
}

abbrev pub binding_keys : List String
binding_keys = "template_id" ∷ "version_seq" ∷ "head_digest" ∷ []

abbrev pub intent_keys : List String
intent_keys = "policy_binding" ∷ "budget" ∷ "allowed_tools" ∷ []

module _ (binding : Dict Value) (path : String) where
  unfoldable pub parse_version_seq : Parsed (Option ℕ)
  parse_version_seq = optional "version_seq" binding (λ v. expect_int v (path <> ".version_seq") 1)

  unfoldable pub parse_head_digest : Parsed (Option String)
  parse_head_digest =
      optional "head_digest" binding
        (λ v. expect_format is_head_digest v (at (path <> ".head_digest")))

  unfoldable pub parse_template_id : Value → Parsed String
  parse_template_id v = expect_format is_identifier v (at (path <> ".template_id"))

unfoldable pub parse_policy_binding : Value → String → Parsed Binding
unfolding parse_version_seq parse_head_digest parse_template_id
parse_policy_binding raw path = do
  binding ← expect_mapping raw path
  reject_unknown binding_keys binding path
  template_id ← parse_template_id binding path (get "template_id" binding)
  version_seq ← parse_version_seq binding path
  head_digest ← parse_head_digest binding path
  returned
      (record { template_id = template_id; version_seq = version_seq; head_digest = head_digest })

unfoldable pub parse_policy_binding_override : Value → String → Parsed BindingOverride
unfolding parse_version_seq parse_head_digest parse_template_id
parse_policy_binding_override raw path = do
  binding ← expect_mapping raw path
  reject_unknown binding_keys binding path
  require_some binding path
  template_id ← optional "template_id" binding (parse_template_id binding path)
  version_seq ← parse_version_seq binding path
  head_digest ← parse_head_digest binding path
  returned
      (record { template_id = template_id; version_seq = version_seq; head_digest = head_digest })

-- `isinstance(raw, (int, float))` and the test for a number below 0; True and False are ints.
unfoldable pub expect_number : Value → String → Parsed Number
expect_number (bool true) path = returned (rational 1 0)
expect_number (bool false) path = returned (rational 0 0)
expect_number (int n) path = returned (rational n 0)
expect_number (float x) path = returned x
expect_number (negative n) path = fail (at path) (below_minimum 0)
expect_number negative_float path = fail (at path) (below_minimum 0)
expect_number raw path = fail (at path) not_a_number

unfoldable pub parse_budget : Value → String → Parsed Budget
unfolding expect_number
parse_budget raw path = do
  budget ← expect_mapping raw path
  expect_format is_currency (get "currency" budget) (at (path <> ".currency")) >>= λ _.
      optional "max_spend_usd" budget (λ v. expect_number v (path <> ".max_spend_usd")) >>= λ cap.
      returned (record { max_spend_usd = cap; others = remove "max_spend_usd" budget })

unfoldable pub expect_list : Value → String → Parsed (List Value)
expect_list (list items) path = returned (elements items)
expect_list raw path = fail (at path) not_an_array

-- The loop over the allowed tools; `seen` holds the names so far, in their order.
unfoldable pub parse_names : String → ℕ → List Value → List String → Parsed (List String)
parse_names path index [] seen = returned seen
parse_names path index (raw ∷ rest) seen = do
  tool_name ← expect_format is_tool_name raw (item path index)
  check (not (contains tool_name seen)) (at path) not_unique
  parse_names path (index + 1) rest (seen ++ tool_name ∷ [])

unfoldable pub on_tools : String → Option Value → Parsed (List String)
unfolding expect_list parse_names
on_tools path none = returned []
on_tools path (some raw) = expect_list raw path >>= λ items. parse_names path 0 items []

unfoldable pub parse_allowed_tools : Dict Value → String → Parsed (List String)
unfolding on_tools
parse_allowed_tools intent path =
    on_tools (path <> ".allowed_tools") (lookup "allowed_tools" intent)

unfoldable pub parse_intent : Value → String → Parsed IntentSection
parse_intent raw path = do
  intent ← expect_mapping raw path
  reject_unknown intent_keys intent path
  policy_binding ←
      optional "policy_binding" intent (λ v. parse_policy_binding v (path <> ".policy_binding"))
  budget ← optional "budget" intent (λ v. parse_budget v (path <> ".budget"))
  allowed_tools ← parse_allowed_tools intent path
  returned
      (record { policy_binding = policy_binding; budget = budget; allowed_tools = allowed_tools })

unfoldable pub parse_intent_override : Value → String → Parsed IntentOverride
parse_intent_override raw path = do
  intent ← expect_mapping raw path
  reject_unknown intent_keys intent path
  require_some intent path
  policy_binding ←
      optional "policy_binding" intent
        (λ v. parse_policy_binding_override v (path <> ".policy_binding"))
  budget ← optional "budget" intent (λ v. parse_budget v (path <> ".budget"))
  allowed_tools ← parse_allowed_tools intent path
  returned
      (record { policy_binding = policy_binding; budget = budget; allowed_tools = allowed_tools })
