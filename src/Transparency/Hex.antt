-- ===== src/Transparency/Hex.antt =====
-- `bytes.hex` and `bytes.fromhex`.
use paybond_kit_python.Prelude.{
  ℕ, zero, suc, ◌+◌, ◌-◌, ◌*◌, ◌<◌, ◌≡◌, refl, sym, ap, ◌∙◌, Bool, true, ◌&&◌, ◌==◌, [], ◌∷◌,
  length, leb, arith, if◌then◌else◌,
}
use paybond_kit_python.Transparency.Bytes.{Bytes, AllBytes}
use native.Mathlib.Decide.{ℕ_discrete}
use Prim.Native.Nat.{◌/◌, ◌%◌}
use Prim.Native.Char.{Char, code}
use paybond_kit_python.Prelude.{◌||◌}
use Prim.Native.String.{String, char_at, [] as empty, ◌∷◌ as ◌▹◌}

nibble : ℕ → Char
nibble n = char_at "0123456789abcdef" n

value : Char → ℕ
value c = if leb (code c) b'9' then code c - b'0' else code c - b'W'

-- a test that the numbers below a bound pass
all_below : (ℕ → Bool) → ℕ → Bool
all_below test zero = true
all_below test (suc n) = test n && all_below test n

all_below_lem : (test : ℕ → Bool) (m n : ℕ) → all_below test n ≡ true → m < n → test m ≡ true
unfolding all_below
all_below_lem test m zero h inside = absurd (omega arith)
all_below_lem test m (suc n) h inside = elim (ℕ_discrete m n) [
  | yes same ↦ rw same (ground (arith, h))
  | no other ↦ all_below_lem test m n (ground (arith, h)) (omega (arith, other))
]

value-nibble : (n : ℕ) → n < 16 → value (nibble n) ≡ n
unfolding value nibble all_below
value-nibble n h = ground (arith, all_below_lem (λ k. value (nibble k) == k) n 16 refl h)

-- bytes.hex()
unfoldable pub hex : Bytes → String
unfolding nibble
hex [] = ""
hex (b ∷ bs) = nibble (b / 16) ▹ (nibble (b % 16) ▹ hex bs)

-- bytes.fromhex(s), for the texts of hexadecimal digits in pairs that reach it
unfoldable pub from_hex : String → Bytes
unfolding value
from_hex empty = []
from_hex (c ▹ empty) = []
from_hex (c ▹ (d ▹ s)) = (value c * 16 + value d) ∷ from_hex s

pub from_hex-hex : (bs : Bytes) → AllBytes bs → from_hex (hex bs) ≡ bs
unfolding hex from_hex
from_hex-hex [] h = refl
from_hex-hex (b ∷ bs) h =
    let high = value-nibble (b / 16) (omega (arith, h.0)) in
    let low = value-nibble (b % 16) (omega arith) in
    rw (high, low, from_hex-hex bs h.1) (ap (λ x. x ∷ bs) (omega arith))

pub hex_inj : (a b : Bytes) → AllBytes a → AllBytes b → hex a ≡ hex b → a ≡ b
hex_inj a b p q h = sym (from_hex-hex a p) ∙ ap from_hex h ∙ from_hex-hex b q

-- the number of characters
unfoldable pub str_length : String → ℕ
str_length empty = 0
str_length (c ▹ s) = suc (str_length s)

is_hex_digit : Char → Bool
is_hex_digit c =
    (leb b'0' (code c) && leb (code c) b'9') || (leb b'a' (code c) && leb (code c) b'f')

all_hex : String → Bool
unfolding is_hex_digit
all_hex empty = true
all_hex (c ▹ s) = is_hex_digit c && all_hex s

-- _HEX64 and _HEX128; the texts that are tested have no line break at their end, where `$` matches
-- as well
unfoldable pub is_hex : ℕ → String → Bool
unfolding all_hex
is_hex n s = all_hex s && str_length s == n

-- A text of 2 n characters gives n bytes.
pub length-from_hex : (n : ℕ) (s : String) → str_length s ≡ 2 * n → length (from_hex s) ≡ n
unfolding from_hex str_length
length-from_hex n empty h = omega (arith, h)
length-from_hex n (c ▹ empty) h = absurd (omega (arith, h))
length-from_hex zero (c ▹ (d ▹ s)) h = absurd (omega (arith, h))
length-from_hex (suc n) (c ▹ (d ▹ s)) h = ap suc (length-from_hex n s (omega (arith, h)))
