-- ===== src/Common/Dict/Every.antt =====
-- Properties of all the entries of a map, and maps in which each key stands once.
use Prim.Native.Nat.{ℕ}
use mathlib.Core.Path.{◌≡◌, refl, subst, ◌∙◌}
use mathlib.Core.Logic.{inl, inr}
use mathlib.Core.Bool.{true}
use mathlib.Core.Option.{none, some}
use mathlib.Core.List.{[], ◌∷◌}
use native.Mathlib.Omega.{arith}
use btstack_rs.Common.Tests.{◌==◌, Bool-cases}
use btstack_rs.Common.Dict.{Dict, lookup, insert, lookup-insert}

key : (j k : ℕ) → (j == k) ≡ true → j ≡ k
key j k e = ground arith

module _ {V : Type 0} where
  abbrev pub Every : (ℕ → V → Type 0) → Dict V → Type 0
  Every P [] = Unit
  Every P ((k, v) ∷ m) = P k v × Every P m

  abbrev pub Distinct : Dict V → Type 0
  Distinct [] = Unit
  Distinct ((k, v) ∷ m) = (lookup k m ≡ none) × Distinct m

  pub Every-map :
      (P Q : ℕ → V → Type 0) (m : Dict V)
      → ((k : ℕ) (v : V) → P k v → Q k v)
      → Every P m
      → Every Q m
  Every-map P Q [] f h = tt
  Every-map P Q ((k, v) ∷ m) f (p, h) = (f k v p, Every-map P Q m f h)

  pub Every-lookup :
      (P : ℕ → V → Type 0) (m : Dict V) (k : ℕ) (v : V) → Every P m → lookup k m ≡ some v → P k v
  unfolding lookup
  Every-lookup P [] k v h e = ground arith
  Every-lookup P ((j, w) ∷ m) k v (p, h) e = elim (Bool-cases (j == k)) [
    | inl same ↦
        let found : w ≡ v = ground arith in subst (λ i. P i v) (key j k same) (subst (P j) found p)
    | inr other ↦ Every-lookup P m k v h (ground arith)
  ]

  pub Every-insert :
      (P : ℕ → V → Type 0) (k : ℕ) (v : V) (m : Dict V) → P k v → Every P m → Every P (insert k v m)
  unfolding insert
  Every-insert P k v [] p h = (p, tt)
  Every-insert P k v ((j, w) ∷ m) p (q, h) = elim (Bool-cases (j == k)) [
    | inl e ↦ rw e (p, h)
    | inr e ↦ rw e (q, Every-insert P k v m p h)
  ]

  pub Distinct-insert : (k : ℕ) (v : V) (m : Dict V) → Distinct m → Distinct (insert k v m)
  unfolding insert
  Distinct-insert k v [] h = (unfold lookup in refl, tt)
  Distinct-insert k v ((j, w) ∷ m) (new, h) = elim (Bool-cases (j == k)) [
    | inl e ↦ rw e (subst (λ i. lookup i m ≡ none) (key j k e) new, h)
    | inr e ↦ rw e (lookup-insert k j v m ∙ ground arith, Distinct-insert k v m h)
  ]

  -- In such a map every entry is the one that a look-up finds.
  pub Distinct-Every : (m : Dict V) → Distinct m → Every (λ k v. lookup k m ≡ some v) m
  Distinct-Every [] h = tt
  Distinct-Every ((j, w) ∷ m) (new, h) = (
    unfold lookup in ground arith,
    Every-map (λ k v. lookup k m ≡ some v) (λ k v. lookup k ((j, w) ∷ m) ≡ some v) m
        (λ k v e. unfold lookup in ground arith) (Distinct-Every m h),
  )
