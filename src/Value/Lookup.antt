-- ===== src/Value/Lookup.antt =====
-- Lookups in a map after each kind of step.
use llm_d_batch_gateway_oper.Prelude.{
  String, ◌≡◌, refl, Option, none, some, Bool, true, false, not, ◌==◌, eq_iff, if◌then◌else◌, arith,
}
use llm_d_batch_gateway_oper.Prelude.Int.{ℤ, pos, eqb_ℤ}
use llm_d_batch_gateway_oper.Value.{
  Value, str, int, obj, Fields, end, field, get, put, put_if, put_some, set_if_not_empty,
  set_if_not_zero, put_fields, has_fields,
}

pub get-put :
    (k j : String) (v : Value) (m : Fields)
    → get j (put k v m) ≡ (if k == j then some v else get j m)
unfolding get put
get-put k j v end = refl
get-put k j v (field i w m) = ground (arith, eq_iff k j, eq_iff i k, eq_iff i j, get-put k j v m)

pub get-put_if :
    (b : Bool) (k j : String) (v : Value) (m : Fields)
    → get j (put_if b k v m) ≡ (if k == j then (if b then some v else get j m) else get j m)
unfolding put_if
get-put_if true k j v m = get-put k j v m
get-put_if false k j v m = ground arith

abbrev pub or_else {ℓ κ} : {A : Type ℓ} {B : Type κ} → (A → B) → Option A → Option B → Option B
or_else f none d = d
or_else f (some a) d = some (f a)

pub get-put_some {ℓ} :
    {A : Type ℓ} (f : A → Value) (k j : String) (o : Option A) (m : Fields)
    → get j (put_some f k o m) ≡ (if k == j then or_else f o (get j m) else get j m)
unfolding put_some
get-put_some f k j none m = ground arith
get-put_some f k j (some a) m = get-put k j (f a) m

pub get-set_if_not_empty :
    (k j s : String) (m : Fields)
    → get j (set_if_not_empty k s m)
      ≡ (if k == j then (if not (s == "") then some (str s) else get j m) else get j m)
unfolding set_if_not_empty
get-set_if_not_empty k j s m = get-put_if (not (s == "")) k j (str s) m

pub get-set_if_not_zero :
    (k j : String) (n : ℤ) (m : Fields)
    → get j (set_if_not_zero k n m)
      ≡ (if k == j then (if not (eqb_ℤ n (pos 0)) then some (int n) else get j m) else get j m)
unfolding set_if_not_zero
get-set_if_not_zero k j n m = get-put_if (not (eqb_ℤ n (pos 0))) k j (int n) m

pub get-put_fields :
    (k j : String) (fs m : Fields)
    → get j (put_fields k fs m)
      ≡ (if k == j then (if has_fields fs then some (obj fs) else get j m) else get j m)
unfolding put_fields
get-put_fields k j fs m = get-put_if (has_fields fs) k j (obj fs) m

pub get-end : (k : String) → get k end ≡ none
unfolding get
get-end k = refl

pub ruleset lookups = (
  get-put, get-put_if, get-put_some, get-set_if_not_empty, get-set_if_not_zero, get-put_fields,
  get-end,
)
