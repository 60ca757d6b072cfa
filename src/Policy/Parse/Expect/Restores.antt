-- ===== src/Policy/Parse/Expect/Restores.antt =====
-- A value that was read and is written out again is read as the same.
use paybond_kit_python.Prelude.{
  ℕ, String, ◌≡◌, refl, sym, ap, ◌∙◌, subst, Bool, true, false, Option, none, some, List, [], ◌∷◌,
  ◌++◌, arith, leb, ltb, if◌then◌else◌, Bool-cases, inl, inr, contains, or_else, str_eq,
}
use paybond_kit_python.Prelude.Dict.{Dict, lookup, lookup-nil, lookup-cons}
use paybond_kit_python.Prelude.Outcome.{returned, returned_inj, raised-ne-returned, bind-returned}
use paybond_kit_python.Policy.Value.{Value, bool, int, negative, str, null}
use paybond_kit_python.Policy.Serialize.{field_of}
use paybond_kit_python.Policy.Parse.Format.{str_length}
use paybond_kit_python.Policy.Parse.Expect.{
  Parsed, Place, check, bad_format, too_long, expect_bool, expect_int, expect_str, expect_format,
  expect_within, optional, on_found, reject_unknown, unknown_keys, Reason,
}

-- `parse` reads back what `emit` writes of a value that `parse` returned.
pub record Restores {A : Type 0} (parse : Value → Parsed A) (emit : A → Value) : Type 0 where
  pub back : (v : Value) (a : A) → parse v ≡ returned a → parse (emit a) ≡ returned a

pub expect_bool-Restores : (path : String) → Restores (λ v. expect_bool v path) bool
unfolding expect_bool
expect_bool-Restores path = record { back = λ v b h. refl }

pub check-returned :
    (b : Bool) (path : Place) (reason : Reason) → check b path reason ≡ returned tt → b ≡ true
check-returned true path reason h = refl
check-returned false path reason h = absurd (raised-ne-returned h)

expect_int-bound :
    (v : Value) (path : String) (least n : ℕ)
    → expect_int v path least ≡ returned n
    → ltb n least ≡ false
unfolding expect_int
expect_int-bound (int m) path least n h = ground arith
expect_int-bound (negative m) path least n h = cc
expect_int-bound _ path least n h = cc

pub expect_int-Restores : (path : String) (least : ℕ) → Restores (λ v. expect_int v path least) int
unfolding expect_int
expect_int-Restores path least = record {
  back = λ v n h. rw (expect_int-bound v path least n h) refl;
}

expect_str-filled :
    (v : Value) (path : Place) (s : String)
    → expect_str v path ≡ returned s
    → expect_str (str s) path ≡ returned s
unfolding expect_str
expect_str-filled (str t) path s h = elim (Bool-cases (str_eq t "")) [
  | inl blank ↦ absurd (raised-ne-returned (rw blank at h))
  | inr filled ↦ let same : t ≡ s = returned_inj (rw filled at h) in rw (← same, filled) refl
]
expect_str-filled null path s h = cc
expect_str-filled _ path s h = cc

module _ (path : Place) where
  pub expect_format-Restores :
      (test : String → Bool) → Restores (λ v. expect_format test v path) str
  unfolding expect_format
  expect_format-Restores test = record { back = go }
    where
      go :
          (v : Value) (s : String)
          → expect_format test v path ≡ returned s
          → expect_format test (str s) path ≡ returned s
      go v s h =
          let (t, read, h1) = bind-returned (expect_str v path) _ h in
          let (_, ok, h2) = bind-returned (check (test t) path bad_format) _ h1 in
          let same = returned_inj h2 in
          simp (
            expect_str-filled v path s (read ∙ ap returned same),
            ap test (sym same) ∙ check-returned (test t) path bad_format ok,
          )

  pub expect_within-Restores : (most : ℕ) → Restores (λ v. expect_within most v path) str
  unfolding expect_within
  expect_within-Restores most = record { back = go }
    where
      go :
          (v : Value) (s : String)
          → expect_within most v path ≡ returned s
          → expect_within most (str s) path ≡ returned s
      go v s h =
          let (t, read, h1) = bind-returned (expect_str v path) _ h in
          let (_, ok, h2) =
            bind-returned (check (leb (str_length t) most) path (too_long most)) _ h1 in
          let same = returned_inj h2 in
          simp (
            expect_str-filled v path s (read ∙ ap returned same),
            ap (λ s. leb (str_length s) most) (sym same)
                ∙ check-returned (leb (str_length t) most) path (too_long most) ok,
          )

-- What a field that may be missing is written as, and found again.
abbrev pub emitted : {A : Type 0} → (A → Value) → Option A → Option Value
emitted emit none = none
emitted emit (some a) = some (emit a)

on_found-emitted :
    {A : Type 0} (parse : Value → Parsed A) (emit : A → Value) (found : Option Value) (o : Option A)
    → Restores parse emit
    → on_found parse found ≡ returned o
    → on_found parse (emitted emit o) ≡ returned o
unfolding on_found
on_found-emitted parse emit none o r h = rw (← returned_inj h) refl
on_found-emitted parse emit (some v) o r h =
    let (a, read, made) = bind-returned (parse v) _ h in
    subst (λ o. on_found parse (emitted emit o) ≡ returned o) (returned_inj made)
      (simp (r.back v a read))

pub optional-emitted :
    {A : Type 0} (key : String) (d d' : Dict Value) (parse : Value → Parsed A) (emit : A → Value)
    (o : Option A)
    → Restores parse emit
    → optional key d parse ≡ returned o
    → lookup key d' ≡ emitted emit o
    → optional key d' parse ≡ returned o
unfolding optional
optional-emitted key d d' parse emit o r h found =
    simp (found, on_found-emitted parse emit (lookup key d) o r h)

pub lookup-append :
    {V : Type 0} (k : String) (a b : Dict V) → lookup k (a ++ b) ≡ or_else (lookup k a) (lookup k b)
unfolding lookup
lookup-append k [] b = refl
lookup-append k ((j, v) ∷ a) b = ground (arith, lookup-append k a b)

pub lookup-field_of :
    {A : Type 0} (k j : String) (emit : A → Value) (o : Option A)
    → lookup k (field_of j emit o) ≡ (if str_eq j k then emitted emit o else none)
unfolding lookup
lookup-field_of k j emit none = ground arith
lookup-field_of k j emit (some a) = refl

pub or_else-none : {A : Type 0} (o : Option A) → or_else o none ≡ o
or_else-none none = refl
or_else-none (some a) = refl

pub ruleset payload_laws = (lookup-cons, lookup-nil, lookup-append, lookup-field_of, or_else-none)

-- No key of the mapping is unknown.
abbrev pub IsKnown : List String → Dict Value → Type 0
IsKnown known d = unknown_keys known d ≡ []

module _ (known : List String) where
  pub reject_unknown-IsKnown :
      (d : Dict Value) (path : String) → IsKnown known d → reject_unknown known d path ≡ returned tt
  unfolding reject_unknown
  reject_unknown-IsKnown d path k = rw k refl

  pub nil-IsKnown : IsKnown known []
  unfolding unknown_keys
  nil-IsKnown = refl

  pub append-IsKnown :
      (a b : Dict Value) → IsKnown known a → IsKnown known b → IsKnown known (a ++ b)
  unfolding unknown_keys
  append-IsKnown [] b h k = k
  append-IsKnown ((j, v) ∷ a) b h k = elim (Bool-cases (contains j known)) [
    | inl in_ ↦ rw in_ (append-IsKnown a b (rw in_ at h) k)
    | inr out ↦ cc (rw out at h)
  ]

  pub cons-IsKnown :
      (key : String) (v : Value) (d : Dict Value)
      → contains key known ≡ true
      → IsKnown known d
      → IsKnown known ((key, v) ∷ d)
  unfolding unknown_keys
  cons-IsKnown key v d h k = rw h k

  pub field_of-IsKnown :
      {A : Type 0} (key : String) (emit : A → Value) (o : Option A)
      → contains key known ≡ true
      → IsKnown known (field_of key emit o)
  unfolding unknown_keys
  field_of-IsKnown key emit none h = refl
  field_of-IsKnown key emit (some a) h = rw h refl
