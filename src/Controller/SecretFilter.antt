-- ===== src/Controller/SecretFilter.antt =====
-- The Secrets that the cluster-wide watch lets through (internal/controller/secret_watch_filter.go).
use Prim.Native.String.{◌++◌}
use llm_d_batch_gateway_oper.Prelude.{String, Bool, List, [], ◌∷◌, ◌==◌, if◌then◌else◌, member}

-- `ns+"/"+name`
abbrev pub watch_key : String → String → String
watch_key namespace name = namespace ++ "/" ++ name

-- The Go map `watched` is the list of its keys.
unfoldable pub add : String → String → List String → List String
add namespace name watched =
    if member (watch_key namespace name) watched
    then watched
    else watch_key namespace name ∷ watched

unfoldable pub without : String → List String → List String
without key [] = []
without key (k ∷ ks) = let rest = without key ks in if k == key then rest else k ∷ rest

unfoldable pub remove : String → String → List String → List String
remove namespace name watched = without (watch_key namespace name) watched

unfoldable pub matches : String → String → List String → Bool
matches namespace name watched = member (watch_key namespace name) watched
