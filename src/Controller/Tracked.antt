-- ===== src/Controller/Tracked.antt =====
-- The watch filter as an abstract set of Secrets: the keys "namespace/name" represent the pairs.
use Prim.Native.Char.{Char, code}
use Prim.Native.String.{◌++◌}
use mathlib.Core.Path.{ap₂}
use text.Mathlib.TextLemmas.{nil-append, cons-append}
use llm_d_batch_gateway_oper.Prelude.{
  String, ◌≡◌, refl, sym, ap, ◌∙◌, inl, inr, Bool, true, false, not, ◌&&◌, ◌||◌, ◌==◌, eq_iff,
  ne_of_false, List, [], ◌∷◌, if◌then◌else◌, Bool-cases, String-cases, member, All, arith, and_iff,
}
use llm_d_batch_gateway_oper.Helm.Images.{contains_char}
use llm_d_batch_gateway_oper.Controller.Reconcile.Tracking.{matches-add}
use llm_d_batch_gateway_oper.Controller.SecretFilter.{watch_key, add, without, remove, matches}

-- No "/", as in every namespace of Kubernetes.
abbrev pub IsPlainName : String → Type 0
IsPlainName s = contains_char b'/' s ≡ false

-- What the reconciler does to the filter, in the order in which the lock is taken.
pub data FilterOp : Type 0 where
  track : String → String → FilterOp
  untrack : String → String → FilterOp

abbrev pub namespace_of : FilterOp → String
namespace_of (track namespace name) = namespace
namespace_of (untrack namespace name) = namespace

abbrev pub run_op : FilterOp → List String → List String
run_op (track namespace name) watched = add namespace name watched
run_op (untrack namespace name) watched = remove namespace name watched

abbrev pub run_ops : List FilterOp → List String → List String
run_ops [] watched = watched
run_ops (op ∷ ops) watched = run_ops ops (run_op op watched)

-- The abstract set: a test on namespace and name.
abbrev pub SecretSet : Type 0
SecretSet = String → String → Bool

abbrev same_secret : String → String → String → String → Bool
same_secret a b namespace name = a == namespace && b == name

abbrev pub spec_op : FilterOp → SecretSet → SecretSet
spec_op (track a b) set namespace name =
    if same_secret a b namespace name then true else set namespace name
spec_op (untrack a b) set namespace name =
    if same_secret a b namespace name then false else set namespace name

abbrev pub spec_ops : List FilterOp → SecretSet → SecretSet
spec_ops [] set = set
spec_ops (op ∷ ops) set = spec_ops ops (spec_op op set)

slash_key : (n : String) → "" ++ "/" ++ n ≡ String.◌∷◌ "/" n
slash_key n = nil-append ("/" ++ n) ∙ cons-append "/" "" n ∙ ap (String.◌∷◌ "/") (nil-append n)

watch_key-cons :
    (c : Char) (s n : String) → watch_key (String.◌∷◌ c s) n ≡ String.◌∷◌ c (watch_key s n)
watch_key-cons c s n = cons-append c s ("/" ++ n)

or_right : (a b : Bool) → (a || b) ≡ false → b ≡ false
or_right a b h = ground arith

slash_first : (x : Char) (s : String) → "/" ≡ x → ¬ IsPlainName (String.◌∷◌ x s)
unfolding contains_char
slash_first x s e h = ground (arith, ap code e)

watch_key-injective :
    (a b c d : String)
    → IsPlainName a
    → IsPlainName c
    → watch_key a b ≡ watch_key c d
    → (a ≡ c) × (b ≡ d)
unfolding contains_char
watch_key-injective String.[] b String.[] d p q h = (refl, cc (sym (slash_key b) ∙ h ∙ slash_key d))
watch_key-injective String.[] b (String.◌∷◌ x c) d p q h =
    let front : "/" ≡ x = cc (sym (slash_key b) ∙ h ∙ watch_key-cons x c d) in
    absurd (slash_first x c front q)
watch_key-injective (String.◌∷◌ x a) b String.[] d p q h =
    let front : "/" ≡ x = cc (sym (watch_key-cons x a b) ∙ h ∙ slash_key d) in
    absurd (slash_first x a front p)
watch_key-injective (String.◌∷◌ x a) b (String.◌∷◌ y c) d p q h =
    let same = sym (watch_key-cons x a b) ∙ h ∙ watch_key-cons y c d in
    let front : x ≡ y = cc same in
    let rest : watch_key a b ≡ watch_key c d = cc same in
    let (e, f) = watch_key-injective a b c d (or_right _ _ p) (or_right _ _ q) rest in
    (ap₂ String.◌∷◌ front e, f)

-- Adding and removing a key, on the test.
member-without :
    (key k : String) (keys : List String)
    → member k (without key keys) ≡ (not (key == k) && member k keys)
unfolding member without
member-without key k [] = ground arith
member-without key k (j ∷ js) =
    ground (arith, member-without key k js, eq_iff j key, eq_iff j k, eq_iff key k)

watch_key-test :
    (a b c d : String)
    → IsPlainName a
    → IsPlainName c
    → (watch_key a b == watch_key c d) ≡ same_secret a b c d
watch_key-test a b c d p q = elim (String-cases (watch_key a b) (watch_key c d)) [
  | inl e ↦
      let (f, g) = watch_key-injective a b c d p q e in
      (eq_iff _ _).1 e ∙ sym ((and_iff _ _).1 ((eq_iff a c).1 f, (eq_iff b d).1 g))
  | inr n ↦
      n
      ∙ sym (elim (Bool-cases (same_secret a b c d)) [
        | inl t ↦
            let (f, g) = (and_iff _ _).0 t in
            absurd (ne_of_false _ _ n (λ i. watch_key ((eq_iff a c).0 f i) ((eq_iff b d).0 g i)))
        | inr u ↦ u
      ])
]

-- The filter lets through exactly the members of the set.
abbrev Represents : List String → SecretSet → Type 0
Represents watched set =
    (namespace name : String)
    → IsPlainName namespace
    → matches namespace name watched ≡ set namespace name

Represents-step :
    (op : FilterOp) (watched : List String) (set : SecretSet)
    → IsPlainName (namespace_of op)
    → Represents watched set
    → Represents (run_op op watched) (spec_op op set)
unfolding remove matches
Represents-step (track a b) watched set p r namespace name q =
    matches-add a b namespace name watched
    ∙ (rw (watch_key-test a b namespace name p q, sym (r namespace name q)) (ground arith))
Represents-step (untrack a b) watched set p r namespace name q =
    member-without (watch_key a b) (watch_key namespace name) watched
    ∙ (rw (watch_key-test a b namespace name p q, sym (r namespace name q)) (ground arith))

Represents-ops :
    (ops : List FilterOp) (watched : List String) (set : SecretSet)
    → All (λ op. IsPlainName (namespace_of op)) ops
    → Represents watched set
    → Represents (run_ops ops watched) (spec_ops ops set)
Represents-ops [] watched set p r = r
Represents-ops (op ∷ ops) watched set p r =
    Represents-ops ops (run_op op watched) (spec_op op set) p.1
      (Represents-step op watched set p.0 r)

-- The watch filter, started empty, refines a set of Secrets: after any sequence of additions and
-- removals of Secrets in namespaces without a slash, it lets an event on a Secret in such a namespace
-- through exactly if the set, started empty and changed by the same sequence, has that very Secret,
-- although the filter keeps only the joined texts "namespace/name".
pub filter_refines_set :
    (ops : List FilterOp)
    → All (λ op. IsPlainName (namespace_of op)) ops
    → (namespace name : String) → IsPlainName namespace
    → matches namespace name (run_ops ops []) ≡ spec_ops ops (λ a b. false) namespace name
unfolding matches member
filter_refines_set ops p = Represents-ops ops [] _ p λ namespace name q. refl
