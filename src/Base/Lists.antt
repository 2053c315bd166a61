-- ===== src/Base/Lists.antt =====
-- Lists measured by native numbers, the searches of the program's comprehensions, and `All`.
use Prim.Native.Nat.{ℕ, suc}
use Prim.Native.String.{String}
use mathlib.Core.Path.{◌≡◌, subst}
use mathlib.Core.Logic.{inl, inr}
use mathlib.Core.Bool.{Bool, true, false, ◌||◌}
use mathlib.Core.List.{List, [], ◌∷◌}
use mathlib.Core.Option.{Option, none, some}
use native.Mathlib.Omega.{arith}
use text.Mathlib.Text.{◌==◌}
use ros2_mcp_server.Base.Tests.{if◌then◌else◌, Bool-cases}

module _ {ℓ} {A : Type ℓ} where
  abbrev pub length : List A → ℕ
  length [] = 0
  length (x ∷ xs) = suc (length xs)

  -- `[x for x in xs if p(x)]`.
  abbrev pub keep : (A → Bool) → List A → List A
  keep p [] = []
  keep p (x ∷ xs) = let rest = keep p xs in if p x then x ∷ rest else rest

  -- `next((x for x in xs if p(x)), None)`.
  abbrev pub find : (A → Bool) → List A → Option A
  find p [] = none
  find p (x ∷ xs) = let rest = find p xs in if p x then some x else rest

  -- `any(p(x) for x in xs)`.
  abbrev pub any : (A → Bool) → List A → Bool
  any p [] = false
  any p (x ∷ xs) = p x || any p xs

  -- `xs[0]` where `len(xs) == 1`.
  abbrev pub sole : List A → Option A
  sole (x ∷ []) = some x
  sole _ = none

  -- What is found among the kept stands in the list.
  pub any_of_find :
      (p q r : A → Bool) (xs : List A) {x : A}
      → find p (keep q xs) ≡ some x
      → (q x ≡ true → r x ≡ true)
      → any r xs ≡ true
  any_of_find p q r [] e h = cc
  any_of_find p q r (y ∷ ys) {x} e h = ground (arith, any_of_find p q r ys {x = x})

  pub any_of_sole :
      (q r : A → Bool) (xs : List A) {x : A}
      → sole (keep q xs) ≡ some x
      → (q x ≡ true → r x ≡ true)
      → any r xs ≡ true
  any_of_sole q r [] e h = cc
  any_of_sole q r (y ∷ ys) {x} e h = ground (arith, any_of_sole q r ys {x = x})

  abbrev pub All {κ} : (A → Type κ) → List A → Type κ
  All P [] = Unit
  All P (x ∷ xs) = P x × All P xs

  -- What is found has what all have.
  pub find-All {κ} :
      (P : A → Type κ) (p : A → Bool) (xs : List A) {x : A} → All P xs → find p xs ≡ some x → P x
  find-All P p [] h e = absurd (cc)
  find-All P p (y ∷ ys) {x} h e = elim (Bool-cases (p y)) [
    | inl k ↦
        let found : ◌≡◌ {A = Option A} (some y) (some x) = rw k at e in
        let same : y ≡ x = cc in subst P same h.0
    | inr k ↦ find-All P p ys h.1 (rw k at e)
  ]

-- `s in names`.
abbrev pub contains : List String → String → Bool
contains [] s = false
contains (x ∷ xs) s = x == s || contains xs s
