-- ===== src/Common/Dict.antt =====
-- Rust's `HashMap<u16, V>` as an association list: each key stands once, and the order of the
-- entries, which Rust leaves open, is not to be relied on.
pub mod Every
use Prim.Native.Nat.{ℕ}
use mathlib.Core.Path.{◌≡◌, refl, sym, ap, ◌∙◌}
use mathlib.Core.Logic.{◌≢◌, ◌⊎◌, inl, inr}
use native.Mathlib.Decide.{ℕ_discrete}
use mathlib.Core.Bool.{Bool, true, false}
use mathlib.Core.Option
use mathlib.Core.Option.{Option, none, some}
use mathlib.Core.List.{List, [], ◌∷◌}
use native.Mathlib.Omega.{arith}
use btstack_rs.Common.Tests.{◌==◌, if◌then◌else◌, Bool-cases, Option-cases}

abbrev pub Dict : Type 0 → Type 0
Dict V = List (ℕ × V)

module _ {V : Type 0} where
  unfoldable pub lookup : ℕ → Dict V → Option V
  lookup k [] = none
  lookup k ((j, v) ∷ m) = if j == k then some v else lookup k m

  unfoldable pub insert : ℕ → V → Dict V → Dict V
  insert k v [] = (k, v) ∷ []
  insert k v ((j, w) ∷ m) = if j == k then (k, v) ∷ m else (j, w) ∷ insert k v m

  -- A write through `get_mut` or `values_mut`.
  unfoldable pub map_values : (V → V) → Dict V → Dict V
  map_values f [] = []
  map_values f ((j, v) ∷ m) = (j, f v) ∷ map_values f m

  pub lookup-insert :
      (k j : ℕ) (v : V) (m : Dict V)
      → lookup j (insert k v m) ≡ (if k == j then some v else lookup j m)
  unfolding lookup insert
  lookup-insert k j v [] = ground arith
  lookup-insert k j v ((i, w) ∷ m) = ground (arith, lookup-insert k j v m)

  pub lookup-insert_same : (k : ℕ) (v : V) (m : Dict V) → lookup k (insert k v m) ≡ some v
  lookup-insert_same k v m = lookup-insert k k v m ∙ ground arith

  pub lookup-insert_other :
      (k j : ℕ) (v : V) (m : Dict V) → k ≢ j → lookup j (insert k v m) ≡ lookup j m
  lookup-insert_other k j v m ne = lookup-insert k j v m ∙ ground arith

  -- What a look-up finds after an insertion is what was inserted or was there.
  pub lookup-insert_cases :
      (k j : ℕ) (v w : V) (m : Dict V)
      → lookup j (insert k v m) ≡ some w
      → ((k ≡ j) × (v ≡ w)) ⊎ ((k ≢ j) × (lookup j m ≡ some w))
  lookup-insert_cases k j v w m e = elim (ℕ_discrete k j) [
    | yes same ↦
        let found : some v ≡ some w =
          sym (lookup-insert_same k v m) ∙ ap (λ i. lookup i (insert k v m)) same ∙ e in
        inl (same, ground arith)
    | no ne ↦ inr (ne, sym (lookup-insert_other k j v m ne) ∙ e)
  ]

  pub lookup-map_values :
      (k : ℕ) (f : V → V) (m : Dict V) → lookup k (map_values f m) ≡ Option.map f (lookup k m)
  unfolding lookup map_values
  lookup-map_values k f [] = refl
  lookup-map_values k f ((j, v) ∷ m) = ground (arith, lookup-map_values k f m)

  pub lookup-insert_found :
      (k j : ℕ) (v w : V) (m : Dict V)
      → lookup j m ≡ some w
      → (u : V) × (lookup j (insert k v m) ≡ some u)
  lookup-insert_found k j v w m e = elim (Bool-cases (k == j)) [
    | inl same ↦ (v, lookup-insert k j v m ∙ ground arith)
    | inr other ↦ (w, lookup-insert k j v m ∙ ground arith)
  ]

  pub lookup-map_values_cases :
      (k : ℕ) (f : V → V) (w : V) (m : Dict V)
      → lookup k (map_values f m) ≡ some w
      → (v : V) × (lookup k m ≡ some v) × (w ≡ f v)
  lookup-map_values_cases k f w m e = elim (Option-cases (lookup k m)) [
    | inl missing ↦
        let nowhere : none ≡ some w =
          sym (lookup-map_values k f m ∙ ap (Option.map f) missing) ∙ e in
        ground arith
    | inr (v, found) ↦
        let there : some (f v) ≡ some w =
          sym (lookup-map_values k f m ∙ ap (Option.map f) found) ∙ e in
        (v, found, ground arith)
  ]
