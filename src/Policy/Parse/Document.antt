-- ===== src/Policy/Parse/Document.antt =====
-- `_parse_extends`, `_parse_adapter`, `_parse_overrides` and the parsers of whole documents.
use paybond_kit_python.Prelude.{
  ℕ, ◌+◌, ◌*◌, String, ◌<>◌, Bool, true, false, not, ◌||◌, Option, none, some, List, [], ◌∷◌,
  is_some, null, ◌==◌, if◌then◌else◌,
}
use paybond_kit_python.Prelude.Dict.{Dict}
use paybond_kit_python.Prelude.Outcome.{returned, ◌>>=◌, ◌>>◌}
use paybond_kit_python.Policy.Value.{Value, rational, bool, int, float, mapping, entries, get}
use paybond_kit_python.Policy.Schema.{
  ToolOverride, Extends, AdapterSection, Overrides, DocumentV1, DocumentV2, Document, v1, v2,
}
use paybond_kit_python.Policy.Parse.Format.{is_policy_name, is_org_id, is_head_digest}
use paybond_kit_python.Policy.Parse.Expect.{
  Parsed, at, fail, check, expect_mapping, expect_bool, expect_format, expect_within, optional,
  reject_unknown, nothing_set, too_few_entries, bad_version,
}
use paybond_kit_python.Policy.Parse.Tool.{
  parse_tools_map, parse_tools_from, parse_tool_override_entry,
}
use paybond_kit_python.Policy.Parse.Intent.{parse_intent, parse_intent_override}

unfoldable pub parse_extends : Value → String → Parsed Extends
parse_extends raw path = do
  extends_ ← expect_mapping raw path
  reject_unknown ("org_policy_id" ∷ "org_id" ∷ "base_digest" ∷ "base_policy" ∷ []) extends_ path
  org_policy_id ←
      expect_format is_policy_name (get "org_policy_id" extends_) (at (path <> ".org_policy_id"))
  org_id ← expect_format is_org_id (get "org_id" extends_) (at (path <> ".org_id"))
  base_digest ←
      optional "base_digest" extends_
        (λ v. expect_format is_head_digest v (at (path <> ".base_digest")))
  base_policy ←
      optional "base_policy" extends_ (λ v. expect_within 512 v (at (path <> ".base_policy")))
  returned (record {
    org_policy_id = org_policy_id;
    org_id = org_id;
    base_digest = base_digest;
    base_policy = base_policy;
  })

unfoldable pub parse_adapter : Value → String → Parsed AdapterSection
parse_adapter raw path = do
  adapter ← expect_mapping raw path
  reject_unknown ("deny_provider_executed_tools" ∷ []) adapter path
  deny_provider_executed_tools ←
      optional "deny_provider_executed_tools" adapter
        (λ v. expect_bool v (path <> ".deny_provider_executed_tools"))
  check (is_some deny_provider_executed_tools) (at path) nothing_set
  returned (record { deny_provider_executed_tools = deny_provider_executed_tools })

-- The overrides of tools: a mapping, and not an empty one.
parse_override_tools : Value → String → Parsed (Dict ToolOverride)
unfolding parse_tools_from
parse_override_tools (mapping fields) path = do
  check (not (null (entries fields))) (at path) (too_few_entries 1)
  parse_tools_from parse_tool_override_entry path (entries fields) []
parse_override_tools raw path = fail (at path) (too_few_entries 1)

-- `not tools`, of tools that may be None
abbrev no_tools : Option (Dict ToolOverride) → Bool
no_tools none = true
no_tools (some tools) = null tools

unfoldable pub parse_overrides : Value → String → Parsed Overrides
unfolding parse_override_tools
parse_overrides raw path = do
  overrides ← expect_mapping raw path
  reject_unknown ("default_deny" ∷ "tools" ∷ "intent" ∷ "adapter" ∷ []) overrides path
  default_deny ← optional "default_deny" overrides (λ v. expect_bool v (path <> ".default_deny"))
  tools ← optional "tools" overrides (λ v. parse_override_tools v (path <> ".tools"))
  intent ← optional "intent" overrides (λ v. parse_intent_override v (path <> ".intent"))
  adapter ← optional "adapter" overrides (λ v. parse_adapter v (path <> ".adapter"))
  check (is_some default_deny || not (no_tools tools) || is_some intent || is_some adapter)
      (at path) nothing_set
  returned
      (record { default_deny = default_deny; tools = tools; intent = intent; adapter = adapter })

-- `version == n`: a bool and a float may equal an int.
abbrev pub equals_int : Value → ℕ → Bool
equals_int (int m) n = m == n
equals_int (bool true) n = n == 1
equals_int (bool false) n = n == 0
equals_int (float x) n = elim x [ rational a b ↦ a == n * (b + 1) | _ ↦ false ]
equals_int _ n = false

abbrev pub v1_keys : List String
v1_keys = "version" ∷ "name" ∷ "default_deny" ∷ "tools" ∷ "intent" ∷ "adapter" ∷ "$schema" ∷ []

abbrev pub v2_keys : List String
v2_keys =
    "version" ∷ "name" ∷ "default_deny" ∷ "tools" ∷ "intent" ∷ "adapter" ∷ "extends" ∷ "overrides"
    ∷ "$schema" ∷ []

unfoldable pub parse_name : Dict Value → Parsed String
parse_name doc = expect_format is_policy_name (get "name" doc) (at "name")

unfoldable pub parse_paybond_policy_document_v1 : Value → Parsed DocumentV1
unfolding parse_name
parse_paybond_policy_document_v1 raw = do
  doc ← expect_mapping raw "(root)"
  reject_unknown v1_keys doc "(root)"
  check (equals_int (get "version" doc) 1) (at "version") bad_version
  name ← parse_name doc
  default_deny ← expect_bool (get "default_deny" doc) "default_deny"
  tools ← parse_tools_map (get "tools" doc) "tools" 1
  intent ← optional "intent" doc (λ v. parse_intent v "intent")
  adapter ← optional "adapter" doc (λ v. parse_adapter v "adapter")
  returned (record {
    name = name;
    default_deny = default_deny;
    tools = tools;
    intent = intent;
    adapter = adapter;
  })

unfoldable pub parse_paybond_policy_document_v2 : Value → Parsed DocumentV2
unfolding parse_name
parse_paybond_policy_document_v2 raw = do
  doc ← expect_mapping raw "(root)"
  reject_unknown v2_keys doc "(root)"
  check (equals_int (get "version" doc) 2) (at "version") bad_version
  name ← parse_name doc
  default_deny ← expect_bool (get "default_deny" doc) "default_deny"
  extends_ ← optional "extends" doc (λ v. parse_extends v "extends")
  overrides ← optional "overrides" doc (λ v. parse_overrides v "overrides")
  tools ← parse_tools_map (get "tools" doc) "tools" (if is_some extends_ then 0 else 1)
  intent ← optional "intent" doc (λ v. parse_intent v "intent")
  adapter ← optional "adapter" doc (λ v. parse_adapter v "adapter")
  returned (record {
    name = name;
    default_deny = default_deny;
    tools = tools;
    extends_ = extends_;
    overrides = overrides;
    intent = intent;
    adapter = adapter;
  })

unfoldable pub parse_paybond_policy_document : Value → Parsed Document
parse_paybond_policy_document raw = expect_mapping raw "(root)" >>= λ doc.
    let version = get "version" doc in
    if equals_int version 1
    then (parse_paybond_policy_document_v1 raw >>= λ d. returned (v1 d))
    else if equals_int version 2
    then (parse_paybond_policy_document_v2 raw >>= λ d. returned (v2 d))
    else fail (at "version") bad_version
