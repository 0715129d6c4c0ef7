-- ===== src/Common/Counts.antt =====
-- How many values of a map pass a test, and maps without a double key.
use Prim.Native.Nat.{ℕ, ◌+◌, ◌≤◌}
use Prim.Native.String.{String}
use mathlib.Core.Path.{◌≡◌, refl}
use mathlib.Core.Logic.{inl, inr}
use mathlib.Core.Bool.{Bool, true, false}
use mathlib.Core.Option.{some}
use mathlib.Core.List.{List, [], ◌∷◌}
use native.Mathlib.Omega.{arith}
use text.Mathlib.Text.{◌==◌}
use text.Mathlib.TextEquality.{eq_iff}
use radiant_prj.Common.Tests.{if◌then◌else◌, Bool-cases}
use radiant_prj.Common.Dict.{Dict, lookup, insert, values, has, has-insert}

abbrev pub count_of : {A : Type 0} → (A → Bool) → List A → ℕ
count_of test [] = 0
count_of test (x ∷ xs) = (if test x then 1 else 0) + count_of test xs

module _ {V : Type 0} (test : V → Bool) where
  -- A value that is stored adds at most one.
  pub count_of-store :
      (key : String) (v : V) (m : Dict V)
      → count_of test (values (insert key v m)) ≤ count_of test (values m) + 1
  unfolding insert values
  count_of-store key v [] = ground arith
  count_of-store key v ((k, u) ∷ m) = ground (arith, count_of-store key v m)

  -- A value that fails the test adds none.
  pub count_of-fail :
      (key : String) (v : V) (m : Dict V)
      → test v ≡ false
      → count_of test (values (insert key v m)) ≤ count_of test (values m)
  unfolding insert values
  count_of-fail key v [] h = ground arith
  count_of-fail key v ((k, u) ∷ m) h = ground (arith, count_of-fail key v m)

  -- A value that takes the place of one that passes adds none.
  pub count_of-replace :
      (key : String) (v u : V) (m : Dict V)
      → lookup key m ≡ some u
      → test u ≡ true
      → count_of test (values (insert key v m)) ≤ count_of test (values m)
  unfolding insert values lookup
  count_of-replace key v u [] h p = cc
  count_of-replace key v u ((k, x) ∷ m) h p = elim (Bool-cases (k == key)) [
    | inl e ↦ (let same : x ≡ u = ground arith in ground (arith, same))
    | inr e ↦ (let rest = count_of-replace key v u m (rw e at h) p in ground (arith, rest))
  ]

-- No key stands twice.
abbrev pub IsUnique : {V : Type 0} → Dict V → Type 0
IsUnique [] = Unit
IsUnique ((k, v) ∷ m) = (has k m ≡ false) × IsUnique m

module _ {V : Type 0} where
  pub insert-IsUnique : (key : String) (v : V) (m : Dict V) → IsUnique m → IsUnique (insert key v m)
  unfolding insert has lookup
  insert-IsUnique key v [] u = (refl, tt)
  insert-IsUnique key v ((k, x) ∷ m) (fresh, u) = elim (Bool-cases (k == key)) [
    | inl e ↦ rw e (ground (arith, eq_iff k key), u)
    | inr e ↦ rw e (
      ground (arith, has-insert key k v m, eq_iff k key, eq_iff key k),
      insert-IsUnique key v m u,
    )
  ]
