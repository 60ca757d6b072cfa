-- ===== src/Policy/Parse/Format.antt =====
-- The regular expressions of src/paybond_kit/policy/schema.py, each as the test `fullmatch` makes.
use paybond_kit_python.Prelude.{ℕ, suc, Bool, true, false, ◌&&◌, ◌||◌, leb, ◌==◌}
use Prim.Native.Char.{code}
use Prim.Native.String.{String, [], ◌∷◌}

abbrev pub str_length : String → ℕ
str_length [] = 0
str_length (c ∷ s) = suc (str_length s)

all_in : (ℕ → Bool) → String → Bool
all_in test [] = true
all_in test (c ∷ s) = test (code c) && all_in test s

is_lower : ℕ → Bool
is_lower c = leb b'a' c && leb c b'z'

is_upper : ℕ → Bool
is_upper c = leb b'A' c && leb c b'Z'

is_digit : ℕ → Bool
is_digit c = leb b'0' c && leb c b'9'

-- one character of the first class, and then up to `most` of the second
starts_and_continues : (ℕ → Bool) → (ℕ → Bool) → ℕ → String → Bool
unfolding all_in
starts_and_continues first others most [] = false
starts_and_continues first others most (c ∷ s) =
    first (code c) && all_in others s && leb (str_length s) most

-- _IDENTIFIER_RE
unfoldable pub is_identifier : String → Bool
unfolding all_in is_lower is_digit
is_identifier s =
    all_in (λ c. is_lower c || is_digit c || c == b'_') s
    && leb 1 (str_length s)
    && leb (str_length s) 64

-- _POLICY_NAME_RE
unfoldable pub is_policy_name : String → Bool
unfolding starts_and_continues is_lower is_digit
is_policy_name =
    starts_and_continues is_lower (λ c. is_lower c || is_digit c || c == b'_' || c == b'-') 63

-- _TOOL_NAME_RE
unfoldable pub is_tool_name : String → Bool
unfolding starts_and_continues is_lower is_digit
is_tool_name =
    starts_and_continues is_lower
      (λ c. is_lower c || is_digit c || c == b'_' || c == b'.' || c == b'-') 127

-- _JSON_PATH_RE
unfoldable pub is_json_path : String → Bool
unfolding all_in is_lower is_upper is_digit
is_json_path [] = false
is_json_path (c ∷ s) =
    (is_lower (code c) || is_upper (code c) || code c == b'_')
    && all_in (λ c. is_lower c || is_upper c || is_digit c || c == b'_' || c == b'.') s

is_hex : ℕ → Bool
unfolding is_digit
is_hex c = is_digit c || (leb b'a' c && leb c b'f') || (leb b'A' c && leb c b'F')

-- `prefix` and then a text that passes the test
after_prefix : String → (String → Bool) → String → Bool
after_prefix [] test s = test s
after_prefix (p ∷ ps) test [] = false
after_prefix (p ∷ ps) test (c ∷ s) = code p == code c && after_prefix ps test s

-- _HEAD_DIGEST_RE
unfoldable pub is_head_digest : String → Bool
unfolding after_prefix all_in is_hex
is_head_digest = after_prefix "sha256:" (λ s. all_in is_hex s && str_length s == 64)

-- _CURRENCY_RE
unfoldable pub is_currency : String → Bool
unfolding all_in is_lower
is_currency s = all_in is_lower s && str_length s == 3

-- _ORG_ID_RE
unfoldable pub is_org_id : String → Bool
unfolding after_prefix starts_and_continues is_lower is_digit
is_org_id =
    after_prefix "org_"
      (starts_and_continues is_lower (λ c. is_lower c || is_digit c || c == b'_') 57)
