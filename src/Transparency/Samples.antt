-- ===== src/Transparency/Samples.antt =====
-- A toy hash and a split that the tests share.
use paybond_kit_python.Prelude.{
  ℕ, zero, suc, ◌+◌, ◌*◌, ◌<◌, refl, [], ◌∷◌, ltb, if◌then◌else◌, arith,
}
use paybond_kit_python.Transparency.Bytes.{Bytes, AllBytes, Sha256}
use paybond_kit_python.Transparency.Power.{IsSplit, one}

abbrev pub weigh : ℕ → Bytes → ℕ
weigh acc [] = acc
weigh acc (b ∷ bs) = weigh (acc * 257 + b + 1) bs

abbrev pub zeros : ℕ → Bytes
zeros zero = []
zeros (suc n) = 0 ∷ zeros n

abbrev pub as_byte : ℕ → ℕ
as_byte n = if ltb n 256 then n else 255

pub as_byte_small : (n : ℕ) → as_byte n < 256
as_byte_small n = ground arith

pub zeros-AllBytes : (n : ℕ) → AllBytes (zeros n)
zeros-AllBytes zero = tt
zeros-AllBytes (suc n) = (omega arith, zeros-AllBytes n)

abbrev pub toy : Sha256
toy = record {
  digest = λ x. as_byte (weigh 0 x) ∷ zeros 31;
  digest_length = λ x. refl;
  digest_bytes = λ x. (as_byte_small (weigh 0 x), zeros-AllBytes 31);
}

pub two-IsSplit : IsSplit 2 1
two-IsSplit = record { power = one refl; below = omega arith; reaches = omega arith }
