-- ===== src/Utils/Installed.antt =====
-- Sources that depend on an installed kind.
use mathlib.Core.List.{Memᴰ}
use llm_d_batch_gateway_oper.Prelude.{
  ◌≡◌, refl, ◌↔◌, inl, inr, true, [], Bool-cases, mem-cons_cases,
}
use llm_d_batch_gateway_oper.Utils.{ObjectType, RestMapper, is_crd_installed, Source, if_installed}

pub mem-if_installed_iff :
    {H : Type 0} (mapper : RestMapper) (object : ObjectType) (source s : Source H)
    → Memᴰ s (if_installed mapper object source)
      ↔ ((is_crd_installed mapper object ≡ true) × (s ≡ source))
mem-if_installed_iff mapper object source s = elim (Bool-cases (is_crd_installed mapper object)) [
  | inl e ↦ rw e (
    (λ m. elim (mem-cons_cases s source [] m) [ inl p ↦ (refl, p) | inr n ↦ elim n [ ] ]),
    λ h. Memᴰ.head h.1,
  )
  | inr e ↦ rw e ((λ m. elim m [ ]), λ h. absurd (cc))
]
