-- ===== src/Policy/Merge/Intent/Laws.antt =====
-- What a merge of the intent section without denials guarantees.
use paybond_kit_python.Prelude.{
  sym, subst, String, ◌≡◌, refl, inl, inr, true, false, Option, none, some, List, [], ◌∷◌, arith,
  null, contains, Bool-cases, eq_iff,
}
use paybond_kit_python.Policy.Merge.Report.{pure, ◌>>◌, IsClean, bind-IsClean_left}
use paybond_kit_python.Policy.Merge.Intent.{
  outside, inside, check_widened, note_narrowed, intersect_filled, intersect_allowed_tools,
}

-- every member of `xs` is in `ys`
abbrev pub Within : List String → List String → Type 0
Within [] ys = Unit
Within (x ∷ xs) ys = (contains x ys ≡ true) × Within xs ys

inside-of_outside :
    (org tenant : List String)
    → outside org tenant ≡ []
    → (inside org tenant ≡ tenant) × Within tenant org
unfolding outside inside
inside-of_outside org [] h = (refl, tt)
inside-of_outside org (t ∷ ts) h = elim (Bool-cases (contains t org)) [
  | inl e ↦ ground (arith, inside-of_outside org ts)
  | inr e ↦ ground arith
]

check_widened_lem : (xs : List String) → IsClean (check_widened xs) → xs ≡ []
unfolding check_widened
check_widened_lem [] h = refl
check_widened_lem (x ∷ xs) h = cc

-- Without denials the tenant's list is kept whole, and lies within the org's.
pub intersect_filled-Within :
    (org tenant : List String)
    → IsClean (intersect_filled org tenant)
    → ((intersect_filled org tenant).value ≡ some tenant) × Within tenant org
unfolding intersect_filled
intersect_filled-Within org tenant h = ground (
  arith,
  inside-of_outside org tenant,
  check_widened_lem (outside org tenant),
  bind-IsClean_left (check_widened (outside org tenant))
      (λ _. note_narrowed tenant (inside org tenant) >> pure (some (inside org tenant))) h,
)

-- a list that an allowlist of the org admits: not empty, and within it
abbrev pub Narrows : Option (List String) → Option (List String) → Type 0
Narrows (some (o ∷ os)) (some r) = (null r ≡ false) × Within r (o ∷ os)
Narrows (some (o ∷ os)) none = ⊥
Narrows _ _ = Unit

contains_self : (x : String) (xs : List String) → contains x (x ∷ xs) ≡ true
contains_self x xs = ground (arith, eq_iff x x)

Within-cons : (y : String) (xs ys : List String) → Within xs ys → Within xs (y ∷ ys)
Within-cons y [] ys h = tt
Within-cons y (x ∷ xs) ys h = (ground (arith, h.0), Within-cons y xs ys h.1)

Within-refl : (xs : List String) → Within xs xs
Within-refl [] = tt
Within-refl (x ∷ xs) = (contains_self x xs, Within-cons x xs xs (Within-refl xs))

-- Without denials an org allowlist is only narrowed, never emptied.
pub intersect_allowed_tools-Narrows :
    (org tenant : Option (List String))
    → IsClean (intersect_allowed_tools org tenant)
    → Narrows org (intersect_allowed_tools org tenant).value
unfolding intersect_allowed_tools
intersect_allowed_tools-Narrows none tenant h = tt
intersect_allowed_tools-Narrows (some []) tenant h = tt
intersect_allowed_tools-Narrows (some (o ∷ os)) none h = (refl, Within-refl (o ∷ os))
intersect_allowed_tools-Narrows (some (o ∷ os)) (some []) h = (refl, Within-refl (o ∷ os))
intersect_allowed_tools-Narrows (some (o ∷ os)) (some (t ∷ ts)) h =
    let r = intersect_filled-Within (o ∷ os) (t ∷ ts) h in
    subst (Narrows (some (o ∷ os))) (sym r.0) (refl, r.1)

pub Narrows-refl : (xs : List String) → Narrows (some xs) (some xs)
Narrows-refl [] = tt
Narrows-refl (x ∷ xs) = (refl, Within-refl (x ∷ xs))
