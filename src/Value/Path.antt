-- ===== src/Value/Path.antt =====
-- Lookups along a path of keys through nested maps.
use llm_d_batch_gateway_oper.Prelude.{String, Option, none, some, List, [], ◌∷◌}
use llm_d_batch_gateway_oper.Value.{Value, obj, Fields, get}

abbrev pub fields_of : Option Value → Option Fields
fields_of none = none
fields_of (some (obj m)) = some m
fields_of (some v) = none

abbrev pub path_from : List String → Option Value → Option Value
path_from [] v = v
path_from (k ∷ ks) v = path_from ks (elim (fields_of v) [ none ↦ none | some m ↦ get k m ])

-- The value at the path, if each map on the way is there.
abbrev pub path : List String → Fields → Option Value
path ks m = path_from ks (some (obj m))
