-- ===== src/Prelude/Sorting.antt =====
-- `slices.Sorted` on texts. The result is determined by which texts go in, not by their order.
use Prim.Native.String.{String}
use mathlib.Core.Path.{◌≡◌, refl, sym, ◌∙◌, ap₂, subst}
use mathlib.Core.Logic.{◌⊎◌, inl, inr, ◌↔◌}
use mathlib.Core.Bool.{true, false}
use mathlib.Core.List.{List, [], ◌∷◌, Memᴰ}
use llm_d_batch_gateway_oper.Prelude.Tests.{if◌then◌else◌, Bool-cases}
use llm_d_batch_gateway_oper.Prelude.Lists.{All, All-mem, All-of_mem, Distinct, mem-cons_cases}
use llm_d_batch_gateway_oper.Prelude.TextOrder.{
  leb_text, leb_text-total, leb_text_trans, leb_text-antisym,
}

place : String → List String → List String
place x [] = x ∷ []
place x (y ∷ ys) = if leb_text x y then x ∷ y ∷ ys else y ∷ place x ys

unfoldable pub sorted : List String → List String
unfolding place
sorted [] = []
sorted (x ∷ xs) = place x (sorted xs)

-- Each text comes before those that follow it.
abbrev pub IsSorted : List String → Type 0
IsSorted [] = Unit
IsSorted (x ∷ xs) = All (λ y. leb_text x y ≡ true) xs × IsSorted xs

mem_of_mem-place : (a x : String) (ys : List String) → Memᴰ a (place x ys) → (a ≡ x) ⊎ Memᴰ a ys
unfolding place
mem_of_mem-place a x [] m = mem-cons_cases a x [] m
mem_of_mem-place a x (y ∷ ys) m = elim (Bool-cases (leb_text x y)) [
  | inl e ↦ mem-cons_cases a x (y ∷ ys) (rw e at m)
  | inr e ↦ elim (mem-cons_cases a y (place x ys) (rw e at m)) [
    | inl p ↦ inr (Memᴰ.head p)
    | inr n ↦ elim (mem_of_mem-place a x ys n) [ inl q ↦ inl q | inr k ↦ inr (Memᴰ.tail k) ]
  ]
]

mem-place_self : (x : String) (ys : List String) → Memᴰ x (place x ys)
unfolding place
mem-place_self x [] = Memᴰ.head refl
mem-place_self x (y ∷ ys) = elim (Bool-cases (leb_text x y)) [
  | inl e ↦ rw e (Memᴰ.head refl)
  | inr e ↦ rw e (Memᴰ.tail (mem-place_self x ys))
]

mem-place_of_mem : (a x : String) (ys : List String) → Memᴰ a ys → Memᴰ a (place x ys)
unfolding place
mem-place_of_mem a x [] m = elim m [ ]
mem-place_of_mem a x (y ∷ ys) (Memᴰ.head p) = elim (Bool-cases (leb_text x y)) [
  | inl e ↦ rw e (Memᴰ.tail (Memᴰ.head p))
  | inr e ↦ rw e (Memᴰ.head p)
]
mem-place_of_mem a x (y ∷ ys) (Memᴰ.tail n) = elim (Bool-cases (leb_text x y)) [
  | inl e ↦ rw e (Memᴰ.tail (Memᴰ.tail n))
  | inr e ↦ rw e (Memᴰ.tail (mem-place_of_mem a x ys n))
]

pub mem-sorted_of_mem : (a : String) (xs : List String) → Memᴰ a xs → Memᴰ a (sorted xs)
unfolding sorted
mem-sorted_of_mem a [] m = elim m [ ]
mem-sorted_of_mem a (x ∷ xs) (Memᴰ.head e) =
    subst (λ b. Memᴰ b (place x (sorted xs))) (sym e) (mem-place_self x (sorted xs))
mem-sorted_of_mem a (x ∷ xs) (Memᴰ.tail m) =
    mem-place_of_mem a x (sorted xs) (mem-sorted_of_mem a xs m)

pub mem_of_mem-sorted : (a : String) (xs : List String) → Memᴰ a (sorted xs) → Memᴰ a xs
unfolding sorted
mem_of_mem-sorted a [] m = elim m [ ]
mem_of_mem-sorted a (x ∷ xs) m = elim (mem_of_mem-place a x (sorted xs) m) [
  | inl e ↦ Memᴰ.head e
  | inr n ↦ Memᴰ.tail (mem_of_mem-sorted a xs n)
]

place-IsSorted : (x : String) (ys : List String) → IsSorted ys → IsSorted (place x ys)
unfolding place
place-IsSorted x [] h = (tt, tt)
place-IsSorted x (y ∷ ys) h = elim (Bool-cases (leb_text x y)) [
  | inl e ↦ rw e ((e, All-of_mem _ ys λ z m. leb_text_trans x y z e (All-mem _ ys h.0 z m)), h)
  | inr e ↦ rw e (All-of_mem _ (place x ys) (λ z m. bound e z m), place-IsSorted x ys h.1)
]
  where
    bound : leb_text x y ≡ false → (z : String) → Memᴰ z (place x ys) → leb_text y z ≡ true
    bound e z m = elim (mem_of_mem-place z x ys m) [
      | inl p ↦ rw p (elim (leb_text-total x y) [ inl q ↦ cc | inr q ↦ q ])
      | inr n ↦ All-mem _ ys h.0 z n
    ]

pub sorted-IsSorted : (xs : List String) → IsSorted (sorted xs)
unfolding sorted
sorted-IsSorted [] = tt
sorted-IsSorted (x ∷ xs) = place-IsSorted x (sorted xs) (sorted-IsSorted xs)

place-Distinct :
    (x : String) (ys : List String) → (¬ Memᴰ x ys) → Distinct ys → Distinct (place x ys)
unfolding place
place-Distinct x [] h d = (h, tt)
place-Distinct x (y ∷ ys) h d = elim (Bool-cases (leb_text x y)) [
  | inl e ↦ rw e (h, d)
  | inr e ↦ rw e (
    (λ m. elim (mem_of_mem-place y x ys m) [ inl p ↦ h (Memᴰ.head (sym p)) | inr n ↦ d.0 n ]),
    place-Distinct x ys (λ m. h (Memᴰ.tail m)) d.1,
  )
]

pub sorted-Distinct : (xs : List String) → Distinct xs → Distinct (sorted xs)
unfolding sorted
sorted-Distinct [] d = tt
sorted-Distinct (x ∷ xs) d =
    place-Distinct x (sorted xs) (λ m. d.0 (mem_of_mem-sorted x xs m)) (sorted-Distinct xs d.1)

-- The texts of two lists are the same.
abbrev pub SameMembers : List String → List String → Type 0
SameMembers xs ys = (a : String) → Memᴰ a xs ↔ Memᴰ a ys

same_heads :
    (x y : String) (xs ys : List String)
    → IsSorted (x ∷ xs)
    → IsSorted (y ∷ ys)
    → SameMembers (x ∷ xs) (y ∷ ys)
    → x ≡ y
same_heads x y xs ys hx hy same = elim (mem-cons_cases x y ys ((same x).0 (Memᴰ.head refl))) [
  | inl e ↦ e
  | inr m ↦ elim (mem-cons_cases y x xs ((same y).1 (Memᴰ.head refl))) [
    | inl e ↦ sym e
    | inr n ↦ leb_text-antisym x y (All-mem _ xs hx.0 y n) (All-mem _ ys hy.0 x m)
  ]
]

tail_members :
    (x y : String) (xs ys : List String)
    → x ≡ y
    → (¬ Memᴰ x xs)
    → SameMembers (x ∷ xs) (y ∷ ys)
    → (a : String) → Memᴰ a xs
    → Memᴰ a ys
tail_members x y xs ys e fresh same a m = elim (mem-cons_cases a y ys ((same a).0 (Memᴰ.tail m))) [
  | inl p ↦ absurd (fresh (subst (λ b. Memᴰ b xs) (p ∙ sym e) m))
  | inr n ↦ n
]

-- Two sorted lists without repetition that hold the same texts are one list.
pub sorted_unique :
    (xs ys : List String)
    → IsSorted xs
    → IsSorted ys
    → Distinct xs
    → Distinct ys
    → SameMembers xs ys
    → xs ≡ ys
sorted_unique [] [] hx hy dx dy same = refl
sorted_unique [] (y ∷ ys) hx hy dx dy same = elim ((same y).1 (Memᴰ.head refl)) [ ]
sorted_unique (x ∷ xs) [] hx hy dx dy same = elim ((same x).0 (Memᴰ.head refl)) [ ]
sorted_unique (x ∷ xs) (y ∷ ys) hx hy dx dy same =
    let e = same_heads x y xs ys hx hy same in
    let back : SameMembers (y ∷ ys) (x ∷ xs) = λ a. ((same a).1, (same a).0) in
    ap₂ ◌∷◌ e (
      sorted_unique xs ys hx.1 hy.1 dx.1 dy.1
        (λ a. (tail_members x y xs ys e dx.0 same a, tail_members y x ys xs (sym e) dy.0 back a)))

-- The order of the input does not show in the result.
pub sorted_of_SameMembers :
    (xs ys : List String) → Distinct xs → Distinct ys → SameMembers xs ys → sorted xs ≡ sorted ys
sorted_of_SameMembers xs ys dx dy same =
    sorted_unique (sorted xs) (sorted ys) (sorted-IsSorted xs) (sorted-IsSorted ys)
      (sorted-Distinct xs dx) (sorted-Distinct ys dy)
      λ a. (
        (λ m. mem-sorted_of_mem a ys ((same a).0 (mem_of_mem-sorted a xs m))),
        (λ m. mem-sorted_of_mem a xs ((same a).1 (mem_of_mem-sorted a ys m))),
      )
