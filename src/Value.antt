-- ===== src/Value.antt =====
-- The trees that the operator hands to Helm (`map[string]any`): JSON-like values, and the steps by
-- which internal/controller/helm.go, helm_batch.go and helm_async.go fill a map.
pub mod Lookup
pub mod Path
use llm_d_batch_gateway_oper.Prelude.{
  String, Option, none, some, Bool, true, false, not, List, [], ◌∷◌, ◌==◌, if◌then◌else◌,
}
use llm_d_batch_gateway_oper.Prelude.Assoc.{Assoc}
use llm_d_batch_gateway_oper.Prelude.Int.{ℤ, pos, eqb_ℤ}

-- `number` is a float64 that encoding/json read, by its literal.
mutual
  pub data Value : Type 0 where
    obj : Fields → Value
    arr : Items → Value
    str : String → Value
    int : ℤ → Value
    bool : Bool → Value
    number : String → Value
    null : Value

  pub data Fields : Type 0 where
    end : Fields
    field : String → Value → Fields → Fields

  pub data Items : Type 0 where
    nil : Items
    cons : Value → Items → Items

unfoldable pub get : String → Fields → Option Value
get k end = none
get k (field j v m) = let rest = get k m in if j == k then some v else rest

-- `m[k] = v`
unfoldable pub put : String → Value → Fields → Fields
put k v end = field k v end
put k v (field j w m) = let rest = put k v m in if j == k then field k v m else field j w rest

abbrev pub has_fields : Fields → Bool
has_fields end = false
has_fields (field k v m) = true

-- The statements of a block that fills a map run from left to right.
infixl 20 ◌▹◌
abbrev pub ◌▹◌ : Fields → (Fields → Fields) → Fields
m ▹ step = step m

-- `if test { m[key] = value }`
unfoldable pub put_if : Bool → String → Value → Fields → Fields
put_if test key value m = if test then put key value m else m

-- `if p != nil { m[key] = value(*p) }`
unfoldable pub put_some {ℓ} : {A : Type ℓ} → (A → Value) → String → Option A → Fields → Fields
put_some value key none m = m
put_some value key (some a) m = put key (value a) m

-- `setIfNotEmpty`
unfoldable pub set_if_not_empty : String → String → Fields → Fields
unfolding put_if
set_if_not_empty key value = put_if (not (value == "")) key (str value)

-- `if n != 0 { m[key] = int64(n) }`
unfoldable pub set_if_not_zero : String → ℤ → Fields → Fields
unfolding put_if
set_if_not_zero key n = put_if (not (eqb_ℤ n (pos 0))) key (int n)

-- `if len(fields) > 0 { m[key] = fields }`
unfoldable pub put_fields : String → Fields → Fields → Fields
unfolding put_if
put_fields key fields = put_if (has_fields fields) key (obj fields)

-- `toStringInterfaceMap`
text_fields : Assoc String → Fields
text_fields [] = end
text_fields ((k, v) ∷ m) = put k (str v) (text_fields m)

unfoldable pub to_string_interface_map : Assoc String → Value
unfolding text_fields
to_string_interface_map m = obj (text_fields m)

abbrev pub is_nonempty {ℓ} : {A : Type ℓ} → List A → Bool
is_nonempty [] = false
is_nonempty (x ∷ xs) = true

-- `append` in a loop over a slice
unfoldable pub items_of {ℓ} : {A : Type ℓ} → (A → Value) → List A → Items
items_of value [] = nil
items_of value (x ∷ xs) = cons (value x) (items_of value xs)

-- `toInterfaceSlice`
unfoldable pub to_interface_slice : List String → Value
unfolding items_of
to_interface_slice ss = arr (items_of str ss)
