-- ===== src/Common/Dict.antt =====
-- Go's `map[string]V`: an association list whose keys are texts. Go iterates over a map in an
-- unspecified order; here the order is that of insertion.
use Prim.Native.String.{String}
use Prim.Native.Nat.{suc}
use mathlib.Core.Path.{◌≡◌, refl, subst}
use mathlib.Core.Logic.{◌⊎◌, inl, inr}
use mathlib.Core.Bool.{Bool, true, false}
use mathlib.Core.Option.{Option, none, some}
use mathlib.Core.List.{List, [], ◌∷◌}
use native.Mathlib.Omega.{arith}
use text.Mathlib.TextEquality.{eq_iff}
use text.Mathlib.Text.{◌==◌}
use radiant_prj.Common.Tests.{if◌then◌else◌, Bool-cases}
use radiant_prj.Common.Lists.{All, length}

abbrev pub Dict {ℓ} : Type ℓ → Type ℓ
Dict V = List (String × V)

module _ {ℓ} {V : Type ℓ} where
  -- `value, ok := m[key]`
  unfoldable pub lookup : String → Dict V → Option V
  lookup key ((here, value) ∷ rest) = if here == key then some value else lookup key rest
  lookup key [] = none

  -- `m[key] = value`
  unfoldable pub insert : String → V → Dict V → Dict V
  insert key value (entry ∷ rest) =
      if entry.0 == key then (key, value) ∷ rest else entry ∷ insert key value rest
  insert key value [] = (key, value) ∷ []

  -- The values, as `for _, v := range m` meets them.
  unfoldable pub values : Dict V → List V
  values [] = []
  values ((_, v) ∷ m) = v ∷ values m

  -- `_, ok := m[k]`
  unfoldable pub has : String → Dict V → Bool
  unfolding lookup
  has k m = elim (lookup k m) [ none ↦ false | some _ ↦ true ]

  pub lookup-insert :
      (key sought : String) (value : V) (m : Dict V)
      → lookup sought (insert key value m) ≡ (if key == sought then some value else lookup sought m)
  unfolding lookup insert
  lookup-insert key sought value ((here, old) ∷ rest) =
      let inductive = lookup-insert key sought value rest in
      ground (arith, inductive, eq_iff here sought, eq_iff here key, eq_iff key sought)
  lookup-insert key sought value [] = refl

  pub lookup-empty : (k : String) → ◌≡◌ {A = Option V} (lookup k []) none
  unfolding lookup
  lookup-empty k = refl

  pub lookup-insert_self : (k : String) (v : V) (m : Dict V) → lookup k (insert k v m) ≡ some v
  lookup-insert_self k v m = ground (arith, lookup-insert k k v m, eq_iff k k)

  pub lookup-insert_cases :
      (k j : String) (v : V) (m : Dict V) {x : V}
      → lookup j (insert k v m) ≡ some x
      → ((k ≡ j) × (v ≡ x)) ⊎ (lookup j m ≡ some x)
  lookup-insert_cases k j v m h = ground (arith, lookup-insert k j v m, eq_iff k j)

  pub has-insert :
      (k j : String) (v : V) (m : Dict V)
      → has j (insert k v m) ≡ (if k == j then true else has j m)
  unfolding has
  has-insert k j v m = ground (arith, lookup-insert k j v m)

  pub length-insert :
      (key : String) (value : V) (m : Dict V)
      → has key m ≡ false
      → length (insert key value m) ≡ suc (length m)
  unfolding insert has lookup
  length-insert key value [] h = refl
  length-insert key value ((here, old) ∷ rest) h = ground (arith, length-insert key value rest)

  -- The second of two writes under a key replaces the first.
  pub insert-insert :
      (key : String) (first second : V) (m : Dict V)
      → insert key second (insert key first m) ≡ insert key second m
  unfolding insert
  insert-insert key first second [] = ground (arith, eq_iff key key)
  insert-insert key first second ((here, old) ∷ rest) =
      let inductive = insert-insert key first second rest in
      ground (arith, inductive, eq_iff key key)

  pub has-some : (k : String) (m : Dict V) {v : V} → lookup k m ≡ some v → has k m ≡ true
  unfolding has
  has-some k m h = ground arith

  pub some-has : (k : String) (m : Dict V) → has k m ≡ true → (v : V) × (lookup k m ≡ some v)
  unfolding has
  some-has k m h = ground arith

module _ {ℓ} {V : Type ℓ} where
  -- An inner map that has not been made is read as empty.
  unfoldable pub inner : String → Dict (Dict V) → Dict V
  unfolding lookup
  inner k m = elim (lookup k m) [ none ↦ [] | some d ↦ d ]

  -- A slice that has not been made is read as empty.
  unfoldable pub slice : String → Dict (List V) → List V
  unfolding lookup
  slice k m = elim (lookup k m) [ none ↦ [] | some l ↦ l ]

  pub inner-insert :
      (k j : String) (d : Dict V) (m : Dict (Dict V))
      → inner j (insert k d m) ≡ (if k == j then d else inner j m)
  unfolding inner
  inner-insert k j d m = ground (arith, lookup-insert k j d m)

  pub slice-insert :
      (k j : String) (l : List V) (m : Dict (List V))
      → slice j (insert k l m) ≡ (if k == j then l else slice j m)
  unfolding slice
  slice-insert k j l m = ground (arith, lookup-insert k j l m)

module _ {ℓ} {V : Type ℓ} where
  pub inner-insert_self : (k : String) (d : Dict V) (m : Dict (Dict V)) → inner k (insert k d m) ≡ d
  inner-insert_self k d m = ground (arith, inner-insert k k d m, eq_iff k k)

  pub slice-insert_self : (k : String) (l : List V) (m : Dict (List V)) → slice k (insert k l m) ≡ l
  slice-insert_self k l m = ground (arith, slice-insert k k l m, eq_iff k k)

-- A property of every value of a map.
abbrev pub AllValues {ℓ} : {V : Type ℓ} → (V → Type 0) → Dict V → Type 0
AllValues P m = All (λ e. P (e.1)) m

module _ {ℓ} {V : Type ℓ} (P : V → Type 0) where
  pub AllValues-insert :
      (k : String) (v : V) (m : Dict V) → P v → AllValues P m → AllValues P (insert k v m)
  unfolding insert
  AllValues-insert k v [] h a = (h, tt)
  AllValues-insert k v ((j, w) ∷ m) h a =
      elim (j == k) as (λ b. All (λ e. P (e.1)) (if b then (k, v) ∷ m else (j, w) ∷ insert k v m)) [
        | true ↦ (h, a.1)
        | false ↦ (a.0, AllValues-insert k v m h a.1)
      ]

  pub AllValues-lookup :
      (k : String) (m : Dict V) {v : V} → AllValues P m → lookup k m ≡ some v → P v
  unfolding lookup
  AllValues-lookup k [] a h = cc
  AllValues-lookup k ((j, w) ∷ m) {v} a h = elim (Bool-cases (j == k)) [
    | inl e ↦ (let s : some w ≡ some v = rw e at h in let p : w ≡ v = cc in subst P p a.0)
    | inr e ↦ AllValues-lookup k m a.1 (rw e at h)
  ]

pub ruleset dict_laws = (lookup-empty, lookup-insert, has-insert, inner-insert, slice-insert)
