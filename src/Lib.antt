-- ===== src/Lib.antt =====
-- Paybond Kit for Python (src/paybond_kit): the SDK by which agents spend money under a policy.
--
-- The parts, and how they interact. An organisation writes a base policy and a tenant an overlay;
-- the policy engine merges the two into the effective document that the agent middleware enforces.
-- The receipts of what an agent did are logged in a Merkle tree, and a client checks that a receipt
-- is included under a signed tree head.
--
-- Policy.Schema models the documents of src/paybond_kit/policy/schema.py as a parsed document holds
--   them. Whole numbers are ℕ, since the parser refuses negative ones. A number of a budget is a
--   fraction, infinity or nan, compared as Python compares ints and floats. The other values of a
--   budget are only copied and are kept as they were decoded; a cap of True or False is 1 or 0.
-- Policy.Value models decoded YAML and JSON, with texts as the keys of a mapping. Policy.Parse models
--   the validation in src/paybond_kit/policy/schema.py: Format the regular expressions, Expect the
--   `_expect_` helpers and the steps that the parsers repeat, Tool, Intent and Document the parsers.
--   Of an error, the path is modelled and the reason with what its message quotes; unknown fields
--   are listed as they stand in the mapping. Policy.Serialize models `policy_document_to_dict`; a
--   budget's cap is written last there, as the float that it equals. Policy.Checked is about parsing
--   and merging together.
-- Policy.Merge models src/paybond_kit/policy/merge.py, function by function: Report the two lists
--   that the merge appends to, Tools `_merge_tool_fields` and the loops over tools, Intent
--   `_merge_policy_binding`, `_merge_budget` and `_intersect_allowed_tools`, Adapter
--   `_merge_adapter_section`, Sections the effective intent section, Engine
--   `merge_paybond_policies`. A step returns its value with what it appends to `denied` and to
--   `overrides_applied`. A denial is a constructor with what its message quotes; the text of the
--   message is not modelled, its path and its code are. Copies of dictionaries are the same value.
-- Transparency models src/paybond_kit/agent_receipt_inclusion.py: Power
--   `_largest_power_of_two_less_than`, Root `_reconstruct_merkle_root`. SHA-256 is a parameter,
--   of which only that a digest is 32 bytes is assumed, so that soundness is stated up to a
--   collision between what an audit path and what a tree have hashed at one level (Tree.Way). Hex is `bytes.hex`; Proof the verification of an inclusion proof
--   and Proof.Head that of a tree head, as decoded JSON (Proof.Values), with Ed25519,
--   `json.dumps`, `str.lower` and the texts of values other than texts as parameters; fields
--   that no check settles are left out. Tree is RFC 6962's Merkle tree, independent of the code.
--   The doubling loop has n rounds of fuel and the recursion on the tree size n has n levels;
--   both are proved enough.
-- Agent models the middleware that stands between an agent and its tools: Registry
--   src/paybond_kit/agent/registry.py, where `known` stands for `get_completion_preset` and the
--   mappers of an entry are left out; AuthorizationCache
--   src/paybond_kit/agent/authorization_cache.py, with times as ticks of the clock; Run calls to
--   services, which end in a value or an exception and are listed, the newest first; SpendGuard
--   src/paybond_kit/spend_guard.py, with the answer of src/paybond_kit/harbor.py's /verify. Harbor
--   and the tool are parameters, which may return or raise anything and change a world of their
--   own. An exception says whether `except Exception` catches it. Calls run one at a time.
--   Interceptor models src/paybond_kit/agent/interceptor.py: `_resolve_side_effecting_call` itself,
--   Session the state, the calls in flight and the trace, Authorize `authorize_tool_call`, Execute
--   and Execute.Wrap `wrap_execute`; Counts and Reach are about sequences of such
--   calls, Handover about an authorization and its execution directly after it. A resolver
--   of spend is a function that raises nothing. The tool, the mappers, the trace sink, the two ways
--   to submit evidence, with the signing and the reading of the answer, and the composer of a
--   receipt draft are parameters; the first four may return or raise anything.
-- Mcp.TokenCache models src/paybond_kit/mcp_capability_token_cache.py but for the parser of its
--   environment variables. Each reading of the clock is an argument.
-- Gateway.Retry models the loop of src/paybond_kit/gateway_retry.py, which has `max_retries` rounds;
--   the requests, the sleeps and `json.loads` are parameters.
-- Prelude.Dict is Python's dictionary in insertion order, Prelude.Eviction the deletion of the
--   entries that pass a test, Prelude.Outcome a value or an exception, Prelude.Text `str.strip`.
--
-- Not modelled: the command line, the HTTP clients of the gateway and of Harbor, the framework
-- adapters, the MCP servers, the payment providers, templates and data, which are input and output
-- or glue over services; the parsing of YAML and JSON texts, which third-party code does.
pub mod Prelude
pub mod Agent
pub mod Gateway
pub mod Mcp
pub mod Policy
pub mod Transparency
