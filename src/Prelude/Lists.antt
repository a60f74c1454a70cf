-- ===== src/Prelude/Lists.antt =====
-- Lists: quantifiers by recursion, tests for a text, and lists without repetition.
use mathlib.Core.Path.{◌≡◌, refl, sym, ap, subst}
use mathlib.Core.Logic.{◌⊎◌, inl, inr}
use mathlib.Core.Bool.{Bool, true, false, ◌||◌}
use mathlib.Core.List.{List, [], ◌∷◌, ◌++◌, Memᴰ, map}
use Prim.Native.String.{String}
use native.Mathlib.Omega.{arith}
use text.Mathlib.Text.{◌==◌}
use text.Mathlib.TextEquality.{eq_iff}
use llm_d_batch_gateway_oper.Prelude.Tests.{Bool-cases, String-cases}

-- The predicate holds of every element.
abbrev pub All {ℓ κ} : {A : Type ℓ} → (A → Type κ) → List A → Type κ
All P [] = Unit
All P (x ∷ xs) = P x × All P xs

-- No element stands in the list twice.
abbrev pub Distinct {ℓ} : {A : Type ℓ} → List A → Type ℓ
Distinct [] = Unit
Distinct (x ∷ xs) = (¬ Memᴰ x xs) × Distinct xs

module _ {ℓ κ} {A : Type ℓ} (P : A → Type κ) where
  pub All-mem : (xs : List A) → All P xs → (x : A) → Memᴰ x xs → P x
  All-mem [] h x m = elim m [ ]
  All-mem (y ∷ ys) h x (Memᴰ.head e) = subst P (sym e) h.0
  All-mem (y ∷ ys) h x (Memᴰ.tail m) = All-mem ys h.1 x m

  pub All-of_mem : (xs : List A) → ((x : A) → Memᴰ x xs → P x) → All P xs
  All-of_mem [] h = tt
  All-of_mem (y ∷ ys) h = (h y (Memᴰ.head refl), All-of_mem ys (λ x m. h x (Memᴰ.tail m)))

-- Membership of a text in a Go map that is used as a set.
unfoldable pub member : String → List String → Bool
member x [] = false
member x (y ∷ ys) = y == x || member x ys

pub member-cons : (x y : String) (ys : List String) → member x (y ∷ ys) ≡ (y == x || member x ys)
unfolding member
member-cons x y ys = refl

pub member→mem : (x : String) (ys : List String) → member x ys ≡ true → Memᴰ x ys
unfolding member
member→mem x [] h = absurd (cc)
member→mem x (y ∷ ys) h = elim (String-cases y x) [
  | inl e ↦ Memᴰ.head (sym e)
  | inr n ↦ Memᴰ.tail (member→mem x ys (rw n at h))
]

pub mem→member : (x : String) (ys : List String) → Memᴰ x ys → member x ys ≡ true
unfolding member
mem→member x [] m = elim m [ ]
mem→member x (y ∷ ys) (Memᴰ.head e) = ground (arith, (eq_iff y x).1 (sym e))
mem→member x (y ∷ ys) (Memᴰ.tail m) = ground (arith, mem→member x ys m)

pub not_mem_of_member : (x : String) (ys : List String) → member x ys ≡ false → ¬ Memᴰ x ys
not_mem_of_member x ys h m = cc (mem→member x ys m)

pub member_of_not_mem : (x : String) (ys : List String) → ¬ Memᴰ x ys → member x ys ≡ false
member_of_not_mem x ys h = elim (Bool-cases (member x ys)) [
  | inl e ↦ absurd (h (member→mem x ys e))
  | inr e ↦ e
]

module _ {ℓ κ} {A : Type ℓ} {B : Type κ} (f : A → B) where
  pub mem-map_of_mem : (x : A) (xs : List A) → Memᴰ x xs → Memᴰ (f x) (map f xs)
  mem-map_of_mem x [] m = elim m [ ]
  mem-map_of_mem x (y ∷ ys) (Memᴰ.head e) = Memᴰ.head (ap f e)
  mem-map_of_mem x (y ∷ ys) (Memᴰ.tail m) = Memᴰ.tail (mem-map_of_mem x ys m)

  pub mem_of_mem-map : (b : B) (xs : List A) → Memᴰ b (map f xs) → (a : A) × Memᴰ a xs × (b ≡ f a)
  mem_of_mem-map b [] m = elim m [ ]
  mem_of_mem-map b (y ∷ ys) (Memᴰ.head e) = (y, Memᴰ.head refl, e)
  mem_of_mem-map b (y ∷ ys) (Memᴰ.tail m) =
      let (a, n, e) = mem_of_mem-map b ys m in (a, Memᴰ.tail n, e)

module _ {ℓ} {A : Type ℓ} where
  pub mem-append_left : (x : A) (xs ys : List A) → Memᴰ x xs → Memᴰ x (xs ++ ys)
  mem-append_left x [] ys m = elim m [ ]
  mem-append_left x (y ∷ xs) ys (Memᴰ.head e) = Memᴰ.head e
  mem-append_left x (y ∷ xs) ys (Memᴰ.tail m) = Memᴰ.tail (mem-append_left x xs ys m)

  pub mem-append_right : (x : A) (xs ys : List A) → Memᴰ x ys → Memᴰ x (xs ++ ys)
  mem-append_right x [] ys m = m
  mem-append_right x (y ∷ xs) ys m = Memᴰ.tail (mem-append_right x xs ys m)

  pub mem-append_cases : (x : A) (xs ys : List A) → Memᴰ x (xs ++ ys) → Memᴰ x xs ⊎ Memᴰ x ys
  mem-append_cases x [] ys m = inr m
  mem-append_cases x (y ∷ xs) ys (Memᴰ.head e) = inl (Memᴰ.head e)
  mem-append_cases x (y ∷ xs) ys (Memᴰ.tail m) = elim (mem-append_cases x xs ys m) [
    | inl n ↦ inl (Memᴰ.tail n)
    | inr n ↦ inr n
  ]

  pub mem-cons_cases : (x y : A) (ys : List A) → Memᴰ x (y ∷ ys) → (x ≡ y) ⊎ Memᴰ x ys
  mem-cons_cases x y ys (Memᴰ.head e) = inl e
  mem-cons_cases x y ys (Memᴰ.tail m) = inr m

module _ {ℓ κ} {A : Type ℓ} (P : A → Type κ) where
  pub All-append : (xs ys : List A) → All P xs → All P ys → All P (xs ++ ys)
  All-append [] ys h k = k
  All-append (x ∷ xs) ys h k = (h.0, All-append xs ys h.1 k)

  pub All-left : (xs ys : List A) → All P (xs ++ ys) → All P xs
  All-left [] ys h = tt
  All-left (x ∷ xs) ys h = (h.0, All-left xs ys h.1)

  pub All-right : (xs ys : List A) → All P (xs ++ ys) → All P ys
  All-right [] ys h = h
  All-right (x ∷ xs) ys h = All-right xs ys h.1

pub append-nil_parts {ℓ} : {A : Type ℓ} (xs ys : List A) → xs ++ ys ≡ [] → (xs ≡ []) × (ys ≡ [])
append-nil_parts [] ys h = (refl, h)
append-nil_parts (x ∷ xs) ys h = absurd (cc)
