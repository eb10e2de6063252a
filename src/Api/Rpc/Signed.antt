-- ===== src/Api/Rpc/Signed.antt =====
-- About the requests that internal/router/middlewares/authentication.go hands to the JSON-RPC service.
use go_tableland.Prelude.{
  ℕ, String, ◌≡◌, refl, sym, ap, ◌∙◌, ◌⊎◌, inl, inr, some, List, [], ◌∷◌, str_eq, Bool-cases,
  str_eq_sound,
}
use go_tableland.Errors.{Result, ok, err, panic, ok_injective}
use go_tableland.Api.Middlewares.{
  HttpRequest, passed, refused_with, gate_panic, SiweMessage, Siwe, to_lower, split_bearer,
  siwe_domain, requires_authentication, verified, check_message, check_token, decoded, parse_auth,
  with_issuer, authorize_parts, check_authorization, authenticate_method, authenticate_body,
  authenticate,
}

-- The token of the request is a message for the domain, which its signature verifies.
abbrev pub Signed : Siwe → HttpRequest → SiweMessage → Type 0
Signed siwe r msg =
    (before : String) × (token : String) × (json : String) × (message : String)
    × (signature : String) × (split_bearer 0 r.authorization ≡ before ∷ token ∷ [])
    × (siwe.decode_string token ≡ ok json)
    × (siwe.unmarshal json ≡ ok (message, signature))
    × (siwe.parse_message message ≡ ok msg)
    × (msg.domain ≡ siwe_domain)
    × (siwe.verify msg signature siwe_domain ≡ ok tt)

-- What a token stands for.
abbrev Token : Siwe → String → ℕ × String → Type 0
Token siwe token (chain, issuer) =
    (msg : SiweMessage) × (json : String) × (message : String) × (signature : String)
    × (siwe.decode_string token ≡ ok json)
    × (siwe.unmarshal json ≡ ok (message, signature))
    × (siwe.parse_message message ≡ ok msg)
    × (msg.domain ≡ siwe_domain)
    × (siwe.verify msg signature siwe_domain ≡ ok tt)
    × (msg.chain_id ≡ chain)
    × (msg.address ≡ issuer)

passed_injective : {r r' : HttpRequest} → passed r ≡ passed r' → r ≡ r'
passed_injective {r} h =
    ap (λ g. elim g [ passed x ↦ x | refused_with n e ↦ r | gate_panic p ↦ r ]) h

module _ (siwe : Siwe) where
  verified-ok :
      (msg : SiweMessage) (v : Result (Unit {0})) (chain : ℕ) (issuer : String)
      → verified siwe msg v ≡ ok (chain, issuer)
      → (v ≡ ok tt) × (msg.chain_id ≡ chain) × (msg.address ≡ issuer)
  unfolding verified
  verified-ok msg (ok u) chain issuer h =
      let e = ok_injective h in (refl, ap (λ p. p.0) e, ap (λ p. p.1) e)
  verified-ok msg (err e) chain issuer h = absurd cc
  verified-ok msg (panic p) chain issuer h = absurd cc

  check_message-ok :
      (signature : String) (m : Result SiweMessage) (chain : ℕ) (issuer : String)
      → check_message siwe signature m ≡ ok (chain, issuer)
      → (msg : SiweMessage) × (m ≡ ok msg)
        × (msg.domain ≡ siwe_domain)
        × (siwe.verify msg signature siwe_domain ≡ ok tt)
        × (msg.chain_id ≡ chain)
        × (msg.address ≡ issuer)
  unfolding check_message
  check_message-ok signature (ok msg) chain issuer =
      elim (Bool-cases (str_eq msg.domain siwe_domain)) [
        | inl b ↦
            rw (b, check_message)
              (λ h.
                let (v, c, i) =
                  verified-ok msg (siwe.verify msg signature siwe_domain) chain issuer h in
                (msg, refl, str_eq_sound msg.domain siwe_domain b, v, c, i))
        | inr b ↦ rw (b, check_message) (λ h. absurd cc)
      ]
  check_message-ok signature (err e) chain issuer = λ h. absurd cc
  check_message-ok signature (panic p) chain issuer = λ h. absurd cc

  parse_auth-ok :
      (token : String) (chain : ℕ) (issuer : String)
      → parse_auth siwe token ≡ ok (chain, issuer)
      → Token siwe token (chain, issuer)
  unfolding parse_auth decoded check_token
  parse_auth-ok token chain issuer h = go (siwe.decode_string token) refl h
    where
      go_message :
          (json : String) (u : Result (String × String))
          → siwe.decode_string token ≡ ok json
          → siwe.unmarshal json ≡ u
          → check_token siwe u ≡ ok (chain, issuer)
          → Token siwe token (chain, issuer)
      go_message json (ok (message, signature)) d u h =
          let (msg, p, dom, v, c, i) =
            check_message-ok signature (siwe.parse_message message) chain issuer h in
          (msg, json, message, signature, d, u, p, dom, v, c, i)
      go_message json (err e) d u h = absurd cc
      go_message json (panic p) d u h = absurd cc

      go :
          (d : Result String)
          → siwe.decode_string token ≡ d
          → decoded siwe d ≡ ok (chain, issuer)
          → Token siwe token (chain, issuer)
      go (ok json) d h = go_message json (siwe.unmarshal json) d refl h
      go (err e) d h = absurd cc
      go (panic p) d h = absurd cc

  -- A request that is handed on is as it came, or its context names the signer and the chain.
  abbrev pub Named : HttpRequest → HttpRequest → Type 0
  Named r r' =
      (msg : SiweMessage) × Signed siwe r msg
      × (r'.context.address ≡ some (to_lower msg.address))
      × (r'.context.chain_id ≡ some msg.chain_id)

  with_issuer-Named :
      (r r' : HttpRequest) (before token : String) (a : Result (ℕ × String))
      → split_bearer 0 r.authorization ≡ before ∷ token ∷ []
      → parse_auth siwe token ≡ a
      → with_issuer siwe r a ≡ passed r'
      → Named r r'
  unfolding with_issuer
  with_issuer-Named r r' before token (ok (chain, issuer)) s p h =
      let (msg, json, message, signature, d, u, m, dom, v, c, i) =
        parse_auth-ok token chain issuer p in
      let same = passed_injective h in
      (
        msg,
        (before, token, json, message, signature, s, d, u, m, dom, v),
        ap (λ (x : HttpRequest). x.context.address) (sym same)
            ∙ ap (λ x. some (to_lower x)) (sym i),
        ap (λ (x : HttpRequest). x.context.chain_id) (sym same) ∙ ap some (sym c),
      )
  with_issuer-Named r r' before token (err e) s p h = absurd cc
  with_issuer-Named r r' before token (panic e) s p h = absurd cc

  authorize_parts-Named :
      (r r' : HttpRequest) (parts : List String)
      → split_bearer 0 r.authorization ≡ parts
      → authorize_parts siwe r parts ≡ passed r'
      → Named r r'
  unfolding authorize_parts
  authorize_parts-Named r r' [] s h = absurd cc
  authorize_parts-Named r r' (a ∷ []) s h = absurd cc
  authorize_parts-Named r r' (a ∷ b ∷ []) s h =
      with_issuer-Named r r' a b (parse_auth siwe b) s refl h
  authorize_parts-Named r r' (a ∷ b ∷ c ∷ rest) s h = absurd cc

  check_authorization-Named :
      (r r' : HttpRequest) → check_authorization siwe r ≡ passed r' → Named r r'
  unfolding check_authorization
  check_authorization-Named r r' = elim (Bool-cases (str_eq r.authorization "")) [
    | inl b ↦ rw (b, check_authorization) (λ h. absurd cc)
    | inr b ↦
        rw (b, check_authorization)
          (λ h. authorize_parts-Named r r' (split_bearer 0 r.authorization) refl h)
  ]

  module _ (method_of : String → Result String) where
    authenticate_method-Named :
        (r r' : HttpRequest) (m : Result String)
        → authenticate_method siwe method_of r m ≡ passed r'
        → (r ≡ r') ⊎ Named r r'
    unfolding authenticate_method
    authenticate_method-Named r r' (ok name) = elim (Bool-cases (requires_authentication name)) [
      | inl b ↦ rw (b, authenticate_method) (λ h. inr (check_authorization-Named r r' h))
      | inr b ↦ rw (b, authenticate_method) (λ h. inl (passed_injective h))
    ]
    authenticate_method-Named r r' (err e) = λ h. absurd cc
    authenticate_method-Named r r' (panic e) = λ h. absurd cc

    pub authenticate-Named :
        (r r' : HttpRequest) → authenticate siwe method_of r ≡ passed r' → (r ≡ r') ⊎ Named r r'
    unfolding authenticate authenticate_body
    authenticate-Named r r' h = go r.body h
      where
        go :
            (b : Result String)
            → authenticate_body siwe method_of r b ≡ passed r'
            → (r ≡ r') ⊎ Named r r'
        go (ok b) h = authenticate_method-Named r r' (method_of b) h
        go (err e) h = absurd cc
        go (panic p) h = absurd cc
