-- ===== src/Tls/Accounting.antt =====
-- What becomes of each cipher of a profile in `batchGatewayCipherSuiteNames`.
use llm_d_batch_gateway_oper.Prelude.{
  ℕ, String, ◌≡◌, refl, ap, List, [], ◌∷◌, Option, none, some, ◌==◌, inl, inr, Bool-cases,
  Option-cases, String-cases, member, member→mem, All, eq_refl, false_of_ne, ◌≢◌,
}
use mathlib.Core.List.{Memᴰ}
use llm_d_batch_gateway_oper.Tls.{TlsProfileSpec, TlsLibrary, version_tls13}
use llm_d_batch_gateway_oper.Tls.Ciphers.{
  supported_names, Verdict, named, rejected, verdict_on_name, take_code, cipher_step,
  record_verdict, name_ciphers, profile_codes, batch_gateway_cipher_suite_names,
}

module _ (code_of : String → Option ℕ) where
  -- The codes of the known ciphers, and the unknown ciphers.
  abbrev add_code : Option ℕ → List ℕ → List ℕ
  add_code none codes = codes
  add_code (some code) codes = code ∷ codes

  abbrev add_unknown : String → Option ℕ → List String → List String
  add_unknown cipher none ciphers = cipher ∷ ciphers
  add_unknown cipher (some code) ciphers = ciphers

  abbrev pub known_codes : List String → List ℕ
  known_codes [] = []
  known_codes (cipher ∷ ciphers) = add_code (code_of cipher) (known_codes ciphers)

  abbrev pub unknown_ciphers : List String → List String
  unknown_ciphers [] = []
  unknown_ciphers (cipher ∷ ciphers) = add_unknown cipher (code_of cipher) (unknown_ciphers ciphers)

module _ (lib : TlsLibrary) where
  -- The ciphers, in their order, fall into those that got a name that crypto/tls implements and
  -- those that are reported.
  pub data Accounted : List String → List String → List String → Type 0 where
    done : Accounted [] [] []
    given :
        {cipher name : String} {ciphers names unsupported : List String}
        → Memᴰ name (supported_names lib)
        → Accounted ciphers names unsupported
        → Accounted (cipher ∷ ciphers) (name ∷ names) unsupported
    refused :
        {cipher : String} {ciphers names unsupported : List String}
        → Accounted ciphers names unsupported
        → Accounted (cipher ∷ ciphers) names (cipher ∷ unsupported)

  -- A verdict names only what is supported.
  abbrev IsSound : Verdict → Type 0
  IsSound (named name) = Memᴰ name (supported_names lib)
  IsSound rejected = Unit

  verdict_on_name-IsSound : (name : String) → IsSound (verdict_on_name lib name)
  unfolding verdict_on_name
  verdict_on_name-IsSound name = elim (Bool-cases (member name (supported_names lib))) [
    | inl e ↦ rw e (member→mem name (supported_names lib) e)
    | inr e ↦ rw e tt
  ]

  take_code-IsSound :
      (codes : List ℕ) (reported : List String) → IsSound (take_code lib codes reported).0
  unfolding take_code
  take_code-IsSound [] reported = tt
  take_code-IsSound (code ∷ codes) reported = verdict_on_name-IsSound (lib.suite_name code)

  cipher_step-IsSound :
      (cipher : String) (codes : List ℕ) (reported : List String)
      → IsSound (cipher_step lib cipher codes reported).0
  unfolding cipher_step
  cipher_step-IsSound cipher codes [] = take_code-IsSound codes []
  cipher_step-IsSound cipher codes (head ∷ reported) = elim (Bool-cases (head == cipher)) [
    | inl e ↦ rw e tt
    | inr e ↦ rw e (take_code-IsSound codes (head ∷ reported))
  ]

  Accounted-record_verdict :
      (verdict : Verdict) (cipher : String) (ciphers : List String)
      (found : List String × List String)
      → IsSound verdict
      → Accounted ciphers found.0 found.1
      → let r = record_verdict verdict cipher found in Accounted (cipher ∷ ciphers) r.0 r.1
  unfolding record_verdict
  Accounted-record_verdict (named name) cipher ciphers found m a = given m a
  Accounted-record_verdict rejected cipher ciphers found m a = refused a

  name_ciphers-Accounted :
      (ciphers : List String) (codes : List ℕ) (reported : List String)
      → let r = name_ciphers lib ciphers codes reported in Accounted ciphers r.0 r.1
  unfolding name_ciphers
  name_ciphers-Accounted [] codes reported = done
  name_ciphers-Accounted (cipher ∷ ciphers) codes reported =
      let (verdict, codes', reported') = cipher_step lib cipher codes reported in
      Accounted-record_verdict verdict cipher ciphers (name_ciphers lib ciphers codes' reported')
        (cipher_step-IsSound cipher codes reported)
        (name_ciphers-Accounted ciphers codes' reported')

  -- Unless the profile asks for TLS 1.3, and whatever the libraries answer: each cipher of the
  -- profile, in its order, either got a name that crypto/tls implements or is reported under its
  -- own name; none is lost and none is invented.
  pub ciphers-Accounted :
      (spec : TlsProfileSpec)
      → spec.min_tls_version ≢ version_tls13
      → let r = batch_gateway_cipher_suite_names lib spec in Accounted spec.ciphers r.0 r.1
  unfolding batch_gateway_cipher_suite_names
  ciphers-Accounted spec h =
      rw (false_of_ne spec.min_tls_version version_tls13 h)
        (name_ciphers-Accounted spec.ciphers _ _)

  module _ (code_of : String → Option ℕ) where
    -- The direct translation of one cipher, by the code that the library knows it by.
    abbrev verdict_of : Option ℕ → Verdict
    verdict_of none = rejected
    verdict_of (some code) = verdict_on_name lib (lib.suite_name code)

    abbrev pub translate : List String → List String × List String
    translate [] = ([], [])
    translate (cipher ∷ ciphers) =
        record_verdict (verdict_of (code_of cipher)) cipher (translate ciphers)

    -- The documented result of `NewTLSConfigFromProfile` on this profile.
    pub record MapsCiphers (spec : TlsProfileSpec) : Type 0 where
      pub codes : profile_codes lib spec ≡ known_codes code_of spec.ciphers
      pub unknown : (lib.new_tls_config spec).1 ≡ unknown_ciphers code_of spec.ciphers

    unknown_ciphers-unknown :
        (ciphers : List String) → All (λ c. code_of c ≡ none) (unknown_ciphers code_of ciphers)
    unknown_ciphers-unknown [] = tt
    unknown_ciphers-unknown (cipher ∷ ciphers) = elim (Option-cases (code_of cipher)) [
      | inl e ↦ rw e (e, unknown_ciphers-unknown ciphers)
      | inr (code, e) ↦ rw e (unknown_ciphers-unknown ciphers)
    ]

    -- A cipher with a code is not taken for the next unknown one.
    cipher_step-known :
        (cipher : String) (code : ℕ) (codes : List ℕ) (reported : List String)
        → code_of cipher ≡ some code
        → All (λ c. code_of c ≡ none) reported
        → cipher_step lib cipher (code ∷ codes) reported
          ≡ (verdict_on_name lib (lib.suite_name code), codes, reported)
    unfolding cipher_step take_code
    cipher_step-known cipher code codes [] h a = refl
    cipher_step-known cipher code codes (head ∷ reported) h a = elim (String-cases head cipher) [
      | inl e ↦ absurd (cc (ap code_of e, h, a.0))
      | inr n ↦ rw n refl
    ]

    cipher_step-unknown :
        (cipher : String) (codes : List ℕ) (reported : List String)
        → cipher_step lib cipher codes (cipher ∷ reported) ≡ (rejected, codes, reported)
    unfolding cipher_step
    cipher_step-unknown cipher codes reported = rw (eq_refl cipher) refl

    name_ciphers-translate :
        (ciphers : List String)
        → name_ciphers lib ciphers (known_codes code_of ciphers) (unknown_ciphers code_of ciphers)
          ≡ translate ciphers
    unfolding name_ciphers
    name_ciphers-translate [] = refl
    name_ciphers-translate (cipher ∷ ciphers) = elim (Option-cases (code_of cipher)) [
      | inl e ↦
          rw
            (
              e,
              cipher_step-unknown cipher (known_codes code_of ciphers)
                  (unknown_ciphers code_of ciphers),
              name_ciphers-translate ciphers,
            )
            refl
      | inr (code, e) ↦
          rw
            (
              e,
              cipher_step-known cipher code (known_codes code_of ciphers)
                  (unknown_ciphers code_of ciphers) e (unknown_ciphers-unknown ciphers),
              name_ciphers-translate ciphers,
            )
            refl
    ]

    -- If the library maps the ciphers as documented, the codes of the known ones and the unknown
    -- ones each in the profile's order, the loop with its two indexes gives each cipher of a profile
    -- below TLS 1.3 what a direct translation of that cipher alone gives: the name that crypto/tls
    -- has for its code, or, without a code or with an unsupported name, the cipher as reported.
    pub loop_translates_each :
        (spec : TlsProfileSpec)
        → spec.min_tls_version ≢ version_tls13
        → MapsCiphers spec
        → batch_gateway_cipher_suite_names lib spec ≡ translate spec.ciphers
    unfolding batch_gateway_cipher_suite_names
    loop_translates_each spec h m =
        rw (false_of_ne spec.min_tls_version version_tls13 h, m.codes, m.unknown)
          (name_ciphers-translate spec.ciphers)
