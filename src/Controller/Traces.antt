-- ===== src/Controller/Traces.antt =====
-- Sequences of calls: what a step adds to them, and what stands behind each call.
use mathlib.Core.List.{append_assoc}
use llm_d_batch_gateway_oper.Prelude.{◌≡◌, refl, sym, ap, ◌∙◌, List, [], ◌∷◌, ◌++◌, All, All-append}
use llm_d_batch_gateway_oper.Controller.Cluster.{Call}

module _ {Conditions : Type 0} (Q : Call Conditions → Type 0) where
  -- A step adds calls with the property, and changes no earlier one.
  pub record Adds (before after : List (Call Conditions)) : Type 0 where
    pub new : List (Call Conditions)
    pub extends : after ≡ new ++ before
    pub only : All Q new

  abbrev pub adds_none : (calls : List (Call Conditions)) → Adds calls calls
  adds_none calls = record { new = []; extends = refl; only = tt }

  abbrev pub adds_call :
      (call : Call Conditions) (calls : List (Call Conditions)) → Q call → Adds calls (call ∷ calls)
  adds_call call calls q = record { new = call ∷ []; extends = refl; only = (q, tt) }

  abbrev pub adds_then : {a b c : List (Call Conditions)} → Adds a b → Adds b c → Adds a c
  adds_then {a} p q = record {
    new = q.new ++ p.new;
    extends = q.extends ∙ ap (λ l. q.new ++ l) p.extends ∙ sym (append_assoc q.new p.new a);
    only = All-append Q q.new p.new q.only p.only;
  }

module _ {Conditions : Type 0} (P : Call Conditions → List (Call Conditions) → Type 0) where
  -- Each call has the property together with the calls before it; the latest call stands first.
  abbrev pub Guarded : List (Call Conditions) → Type 0
  Guarded [] = Unit
  Guarded (call ∷ earlier) = P call earlier × Guarded earlier

  -- Calls for which nothing is asked can be added.
  pub Guarded-append :
      (Q : Call Conditions → Type 0) (new earlier : List (Call Conditions))
      → ((call : Call Conditions) (calls : List (Call Conditions)) → Q call → P call calls)
      → All Q new
      → Guarded earlier
      → Guarded (new ++ earlier)
  Guarded-append Q [] earlier h a g = g
  Guarded-append Q (call ∷ new) earlier h a g =
      (h call (new ++ earlier) a.0, Guarded-append Q new earlier h a.1 g)
