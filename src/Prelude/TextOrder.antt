-- ===== src/Prelude/TextOrder.antt =====
-- The order of Go strings. Go compares bytes; on UTF-8 text that is the order of the code points.
use Prim.Native.Nat.{ℕ, compare, Ordering}
use Prim.Native.Char.{code}
use Prim.Native.String.{String}
use mathlib.Core.Path.{◌≡◌, refl, ap₂}
use mathlib.Core.Logic.{◌⊎◌, inl, inr}
use mathlib.Core.Bool.{Bool, true, false}
use native.Mathlib.Omega.{arith}
use text.Mathlib.TextEquality.{Char-path}

unfoldable pub leb_text : String → String → Bool
leb_text String.[] t = true
leb_text (String.◌∷◌ c s) String.[] = false
leb_text (String.◌∷◌ c s) (String.◌∷◌ d t) = elim (compare (code c) (code d)) [
  | Ordering.lt ↦ true
  | Ordering.gt ↦ false
  | Ordering.eq ↦ leb_text s t
]

pub leb_text-total : (s t : String) → (leb_text s t ≡ true) ⊎ (leb_text t s ≡ true)
unfolding leb_text
leb_text-total String.[] t = inl refl
leb_text-total (String.◌∷◌ c s) String.[] = inr refl
leb_text-total (String.◌∷◌ c s) (String.◌∷◌ d t) = ground (arith, leb_text-total s t)

pub leb_text_trans :
    (s t u : String) → leb_text s t ≡ true → leb_text t u ≡ true → leb_text s u ≡ true
unfolding leb_text
leb_text_trans String.[] t u h k = refl
leb_text_trans (String.◌∷◌ c s) String.[] u h k = absurd (cc)
leb_text_trans (String.◌∷◌ c s) (String.◌∷◌ d t) String.[] h k = absurd (cc)
leb_text_trans (String.◌∷◌ c s) (String.◌∷◌ d t) (String.◌∷◌ e u) h k =
    ground (arith, leb_text_trans s t u)

same_code :
    (a b : ℕ) (x y : Bool)
    → (elim (compare a b) [ Ordering.lt ↦ true | Ordering.gt ↦ false | Ordering.eq ↦ x ]) ≡ true
    → (elim (compare b a) [ Ordering.lt ↦ true | Ordering.gt ↦ false | Ordering.eq ↦ y ]) ≡ true
    → (a ≡ b) × (x ≡ true) × (y ≡ true)
same_code a b x y h k = ground arith

pub leb_text-antisym : (s t : String) → leb_text s t ≡ true → leb_text t s ≡ true → s ≡ t
unfolding leb_text
leb_text-antisym String.[] String.[] h k = refl
leb_text-antisym String.[] (String.◌∷◌ d t) h k = absurd (cc)
leb_text-antisym (String.◌∷◌ c s) String.[] h k = absurd (cc)
leb_text-antisym (String.◌∷◌ c s) (String.◌∷◌ d t) h k =
    let (e, p, q) = same_code (code c) (code d) (leb_text s t) (leb_text t s) h k in
    ap₂ String.◌∷◌ (Char-path c d e) (leb_text-antisym s t p q)
