-- ===== src/Prelude/Assoc.antt =====
-- A Go map with text keys, as an association list in the order in which a `range` loop meets its
-- entries. The order carries no meaning: `SameMap` compares the lookups.
use Prim.Native.String.{String}
use mathlib.Core.Path.{◌≡◌, sym, ap, subst}
use mathlib.Core.Logic.{inl, inr}
use mathlib.Core.Option.{Option, none, some}
use mathlib.Core.List.{List, [], ◌∷◌, Memᴰ}
use native.Mathlib.Omega.{arith}
use text.Mathlib.Text.{◌==◌}
use text.Mathlib.TextEquality.{eq_iff}
use llm_d_batch_gateway_oper.Prelude.Tests.{if◌then◌else◌, String-cases}
use llm_d_batch_gateway_oper.Prelude.Lists.{Distinct}

abbrev pub Assoc {ℓ} : Type ℓ → Type ℓ
Assoc V = List (String × V)

module _ {ℓ} {V : Type ℓ} where
  -- `v, ok := m[key]`
  unfoldable pub lookup : String → Assoc V → Option V
  lookup key [] = none
  lookup key ((other, v) ∷ rest) = if other == key then some v else lookup key rest

  -- `m[k] = v`
  unfoldable pub insert : String → V → Assoc V → Assoc V
  insert k v [] = (k, v) ∷ []
  insert k v ((j, w) ∷ m) = if j == k then (k, v) ∷ m else (j, w) ∷ insert k v m

  abbrev pub keys : Assoc V → List String
  keys [] = []
  keys ((k, v) ∷ m) = k ∷ keys m

  -- What holds of every Go map.
  abbrev pub HasDistinctKeys : Assoc V → Type 0
  HasDistinctKeys m = Distinct (keys m)

  abbrev pub SameMap : Assoc V → Assoc V → Type ℓ
  SameMap m n = (k : String) → lookup k m ≡ lookup k n

module _ {ℓ} {V : Type ℓ} where
  -- A key of the list has a value under `lookup`.
  pub lookup_of_mem-keys :
      (k : String) (m : Assoc V) → Memᴰ k (keys m) → (v : V) × (lookup k m ≡ some v)
  unfolding lookup
  lookup_of_mem-keys k [] n = elim n [ ]
  lookup_of_mem-keys k ((j, w) ∷ m) (Memᴰ.head e) = (w, ground (arith, (eq_iff j k).1 (sym e)))
  lookup_of_mem-keys k ((j, w) ∷ m) (Memᴰ.tail n) = elim (String-cases j k) [
    | inl e ↦ (w, ground (arith, (eq_iff j k).1 e))
    | inr e ↦ let (v, h) = lookup_of_mem-keys k m n in (v, rw e h)
  ]

  pub mem-keys_of_lookup :
      (k : String) (m : Assoc V) (v : V) → lookup k m ≡ some v → Memᴰ k (keys m)
  unfolding lookup
  mem-keys_of_lookup k [] v h = absurd (cc)
  mem-keys_of_lookup k ((j, w) ∷ m) v h = elim (String-cases j k) [
    | inl e ↦ Memᴰ.head (sym e)
    | inr e ↦ Memᴰ.tail (mem-keys_of_lookup k m v (rw e at h))
  ]

  pub mem_of_lookup : (k : String) (m : Assoc V) (v : V) → lookup k m ≡ some v → Memᴰ (k, v) m
  unfolding lookup
  mem_of_lookup k [] v h = absurd (cc)
  mem_of_lookup k ((j, w) ∷ m) v h = elim (String-cases j k) [
    | inl e ↦
        let same : v ≡ w = ground (arith, (eq_iff j k).1 e) in Memᴰ.head (λ i. (sym e i, same i))
    | inr e ↦ Memᴰ.tail (mem_of_lookup k m v (rw e at h))
  ]

  mem-keys_of_mem : (k : String) (v : V) (m : Assoc V) → Memᴰ (k, v) m → Memᴰ k (keys m)
  mem-keys_of_mem k v [] n = elim n [ ]
  mem-keys_of_mem k v ((j, w) ∷ m) (Memᴰ.head e) = Memᴰ.head (ap (λ (p : String × V). p.0) e)
  mem-keys_of_mem k v ((j, w) ∷ m) (Memᴰ.tail n) = Memᴰ.tail (mem-keys_of_mem k v m n)

  -- In a Go map each entry is the one that `lookup` finds.
  pub lookup_of_mem :
      (k : String) (v : V) (m : Assoc V) → HasDistinctKeys m → Memᴰ (k, v) m → lookup k m ≡ some v
  unfolding lookup
  lookup_of_mem k v [] d n = elim n [ ]
  lookup_of_mem k v ((j, w) ∷ m) d (Memᴰ.head e) =
      let same : k ≡ j = ap (λ (p : String × V). p.0) e in
      rw ((eq_iff j k).1 (sym same)) (ap (λ (p : String × V). some p.1) (sym e))
  lookup_of_mem k v ((j, w) ∷ m) d (Memᴰ.tail n) = elim (String-cases j k) [
    | inl e ↦ absurd (d.0 (subst (λ i. Memᴰ i (keys m)) (sym e) (mem-keys_of_mem k v m n)))
    | inr e ↦ rw e (lookup_of_mem k v m d.1 n)
  ]
