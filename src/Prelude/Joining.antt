-- ===== src/Prelude/Joining.antt =====
-- `strings.Join`
use Prim.Native.String.{String, ◌++◌}
use mathlib.Core.List.{List, [], ◌∷◌}

unfoldable pub join : String → List String → String
join separator [] = ""
join separator (x ∷ []) = x
join separator (x ∷ y ∷ ys) = x ++ separator ++ join separator (y ∷ ys)
