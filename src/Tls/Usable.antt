-- ===== src/Tls/Usable.antt =====
-- Which profiles `ProfileValuesFromSpec` accepts, and what it returns.
use llm_d_batch_gateway_oper.Prelude.{
  ℕ, String, ◌≡◌, refl, sym, subst, ◌↔◌, ◌⊎◌, inl, inr, true, false, List, [], ◌∷◌, none, eqb,
  member→mem, mem→member, arith, eq_iff, Bool-cases, String-cases, and_both, ne_of_false,
}
use mathlib.Core.List.{Memᴰ}
use llm_d_batch_gateway_oper.Tls.{
  TlsProfileSpec, CipherSuite, TlsLibrary, version_tls12, version_tls13, wire_tls12,
}
use llm_d_batch_gateway_oper.Tls.Ciphers.{
  batch_gateway_cipher_suite_names, has_version, is_usable, has_usable_suite,
  has_tls12_cipher_suite,
}
use llm_d_batch_gateway_oper.Tls.Conversion.{
  is_foreign_version, convert_suites, convert_ciphers, profile_values_from_spec,
}

eqb_iff : (a b : ℕ) → (eqb a b ≡ true) ↔ (a ≡ b)
eqb_iff a b = ground arith

has_version_iff : (v : ℕ) (vs : List ℕ) → (has_version v vs ≡ true) ↔ Memᴰ v vs
unfolding has_version
has_version_iff v vs = (find vs, look vs)
  where
    find : (vs : List ℕ) → has_version v vs ≡ true → Memᴰ v vs
    find [] h = absurd (cc)
    find (w ∷ ws) h = elim (Bool-cases (eqb w v)) [
      | inl e ↦ Memᴰ.head (sym ((eqb_iff w v).0 e))
      | inr e ↦ Memᴰ.tail (find ws (rw e at h))
    ]

    look : (vs : List ℕ) → Memᴰ v vs → has_version v vs ≡ true
    look [] m = elim m [ ]
    look (w ∷ ws) (Memᴰ.head e) = rw ((eqb_iff w v).1 (sym e)) refl
    look (w ∷ ws) (Memᴰ.tail m) = elim (Bool-cases (eqb w v)) [
      | inl e ↦ rw e refl
      | inr e ↦ rw e (look ws m)
    ]

-- One of the names is a suite's that works with TLS 1.2.
abbrev pub HasUsable : List CipherSuite → List String → Type 0
HasUsable suites names =
    (suite : CipherSuite) × Memᴰ suite suites
    × Memᴰ suite.name names
    × Memᴰ wire_tls12 suite.supported_versions

is_usable_iff :
    (suite : CipherSuite) (names : List String)
    → (is_usable suite names ≡ true)
      ↔ (Memᴰ suite.name names × Memᴰ wire_tls12 suite.supported_versions)
is_usable_iff suite names =
    and_both _ _ (member→mem suite.name names, mem→member suite.name names)
      (has_version_iff wire_tls12 suite.supported_versions)

pub has_usable_suite_iff :
    (suites : List CipherSuite) (names : List String)
    → (has_usable_suite suites names ≡ true) ↔ HasUsable suites names
unfolding has_usable_suite
has_usable_suite_iff suites names = (find suites, λ h. look suites h.0 h.1 (h.2, h.3))
  where
    find : (l : List CipherSuite) → has_usable_suite l names ≡ true → HasUsable l names
    find [] h = absurd (cc)
    find (suite ∷ l) h = elim (Bool-cases (is_usable suite names)) [
      | inl e ↦ let u = (is_usable_iff suite names).0 e in (suite, Memᴰ.head refl, u.0, u.1)
      | inr e ↦ let (s, m, n, v) = find l (rw e at h) in (s, Memᴰ.tail m, n, v)
    ]

    look :
        (l : List CipherSuite) (s : CipherSuite)
        → Memᴰ s l
        → (Memᴰ s.name names × Memᴰ wire_tls12 s.supported_versions)
        → has_usable_suite l names ≡ true
    look [] s m u = elim m [ ]
    look (suite ∷ l) s (Memᴰ.head e) u =
        rw
          ((is_usable_iff suite names).1
            (subst (λ t. Memᴰ t.name names × Memᴰ wire_tls12 t.supported_versions) e u))
          refl
    look (suite ∷ l) s (Memᴰ.tail m) u = elim (Bool-cases (is_usable suite names)) [
      | inl e ↦ rw e refl
      | inr e ↦ rw e (look l s m u)
    ]

-- The minimum versions that the batch gateway takes.
abbrev pub IsVersion : String → Type 0
IsVersion v = (v ≡ "") ⊎ ((v ≡ version_tls12) ⊎ (v ≡ version_tls13))

pub is_foreign_version_iff : (v : String) → (is_foreign_version v ≡ false) ↔ IsVersion v
unfolding is_foreign_version
is_foreign_version_iff v =
    ground (arith, eq_iff v "", eq_iff v version_tls12, eq_iff v version_tls13)

module _ (lib : TlsLibrary) (spec : TlsProfileSpec) where
  -- The names that the loop finds.
  abbrev pub found_names : List String
  found_names = (batch_gateway_cipher_suite_names lib spec).0

  -- Nothing is asked of the names.
  abbrev AsksNothing : List String → Type 0
  AsksNothing ciphers = (ciphers ≡ []) ⊎ (spec.min_tls_version ≡ version_tls13)

  convert_suites_iff :
      (found : List String × List String)
      → ((convert_suites lib spec found).error ≡ none)
        ↔ ((spec.min_tls_version ≡ version_tls13) ⊎ HasUsable lib.suites found.0)
  unfolding convert_suites has_tls12_cipher_suite
  convert_suites_iff found = elim (String-cases spec.min_tls_version version_tls13) [
    | inl e ↦ rw ((eq_iff spec.min_tls_version version_tls13).1 e) ((λ h. inl e), λ h. refl)
    | inr n ↦ elim (Bool-cases (has_usable_suite lib.suites found.0)) [
      | inl u ↦ rw (n, u) ((λ h. inr ((has_usable_suite_iff lib.suites found.0).0 u)), λ h. refl)
      | inr u ↦
          rw (n, u)
            (
              (λ h. absurd (cc)),
              λ h. elim h [
                | inl e ↦ absurd (ne_of_false _ _ n e)
                | inr k ↦ absurd (cc ((has_usable_suite_iff lib.suites found.0).1 k, u))
              ],
            )
    ]
  ]

  convert_ciphers_iff :
      (ciphers : List String)
      → ((convert_ciphers lib spec ciphers).error ≡ none) ↔ (
          (ciphers ≡ [])
          ⊎ ((spec.min_tls_version ≡ version_tls13) ⊎ HasUsable lib.suites found_names))
  unfolding convert_ciphers
  convert_ciphers_iff [] = ((λ h. inl refl), λ h. refl)
  convert_ciphers_iff (cipher ∷ ciphers) =
      let (there, back) = convert_suites_iff (batch_gateway_cipher_suite_names lib spec) in
      ((λ h. inr (there h)), λ h. elim h [ inl e ↦ absurd (cc) | inr k ↦ back k ])

  -- `ProfileValuesFromSpec` accepts a profile exactly if its minimum version is empty, TLS 1.2 or TLS
  -- 1.3, and it names no cipher, or asks for TLS 1.3, or one of the names found for its ciphers is a
  -- suite's that crypto/tls offers with TLS 1.2.
  pub profile_accepted_iff : ((profile_values_from_spec lib spec).error ≡ none) ↔ (
      IsVersion spec.min_tls_version
      × ((spec.ciphers ≡ [])
          ⊎ ((spec.min_tls_version ≡ version_tls13) ⊎ HasUsable lib.suites found_names)))
  unfolding profile_values_from_spec
  profile_accepted_iff =
      let v = is_foreign_version_iff spec.min_tls_version in
      let (there, back) = convert_ciphers_iff spec.ciphers in
      elim (Bool-cases (is_foreign_version spec.min_tls_version)) [
        | inl e ↦ rw e ((λ h. absurd (cc)), λ h. absurd (cc (v.1 h.0, e)))
        | inr e ↦ rw e ((λ h. (v.0 e, there h)), λ h. back h.1)
      ]
