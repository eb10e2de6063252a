-- ===== src/Api/Middlewares.antt =====
-- The middlewares of internal/router/middlewares: which requests reach a handler, and with which context. The
-- parsing of JSON and of SIWE messages is a parameter.
pub mod RateLimit
use Prim.Native.Char.{Char, code}
use go_tableland.Prelude.{
  ℤ, pos, eq_ℤ, ℕ, zero, suc, String, Bool, not, Option, none, some, List, [], ◌∷◌, starts_with,
  str_eq, ◌==◌, if◌then◌else◌,
}
use go_tableland.Errors.{GoError, text, wrapped, flattened, Result, ok, err, panic}
use go_tableland.Names.{set_string, in_int64, add_first}
use go_tableland.Api.{Writer, set_content_type, refuse_with}

-- What a context has of ContextKeyAddress, ContextKeyChainID and ContextIPAddress.
pub record Context : Type 0 where
  pub address : Option String
  pub chain_id : Option ℕ
  pub ip_address : Option String

-- What a middleware reads of a request. The body is what io.ReadAll gives.
pub record HttpRequest : Type 0 where
  pub path : String
  pub body : Result String
  pub authorization : String
  pub forwarded_for : String
  pub remote_addr : String
  pub context : Context

-- A middleware hands a request on, or refuses it with a status and a ServiceError.
pub data Gate : Type 0 where
  passed : HttpRequest → Gate
  refused_with : ℕ → GoError → Gate
  gate_panic : String → Gate

pub record SiweMessage : Type 0 where
  pub domain : String
  pub chain_id : ℕ
  pub address : String

-- base64 and encoding/json on a token (its message and signature), and siwe-go.
pub record Siwe : Type 0 where
  pub decode_string : String → Result String
  pub unmarshal : String → Result (String × String)
  pub parse_message : String → Result SiweMessage
  pub verify : SiweMessage → String → String → Result (Unit {0})

-- strings.ToLower on an address, which has no capital letters but A to F.
unfoldable pub lower_char : Char → Char
lower_char c =
    if code c == 65
    then "a"
    else if code c == 66
    then "b"
    else if code c == 67
    then "c"
    else if code c == 68
    then "d"
    else if code c == 69
    then "e"
    else if code c == 70
    then "f"
    else c

unfoldable pub to_lower : String → String
unfolding lower_char
to_lower String.[] = ""
to_lower (String.◌∷◌ c s) = String.◌∷◌ (lower_char c) (to_lower s)

-- strings.Split(authorization, "Bearer "): the number counts what is left of a separator.
unfoldable pub split_bearer : ℕ → String → List String
unfolding add_first
split_bearer n String.[] = "" ∷ []
split_bearer (suc n) (String.◌∷◌ c s) = split_bearer n s
split_bearer zero (String.◌∷◌ c s) =
    let behind = split_bearer 6 s in
    let rest = split_bearer zero s in
    if starts_with (String.◌∷◌ c s) "Bearer " then "" ∷ behind else add_first (String.◌∷◌ c "") rest

abbrev pub siwe_domain : String
siwe_domain = "Tableland"

unfoldable pub requires_authentication : String → Bool
requires_authentication name = not (str_eq "tableland_runReadQuery" name)

module _ (siwe : Siwe) where
  unfoldable pub verified : SiweMessage → Result (Unit {0}) → Result (ℕ × String)
  verified msg (ok u) = ok (msg.chain_id, msg.address)
  verified msg (err e) = err (wrapped "checking siwe validity" e)
  verified msg (panic p) = panic p

  unfoldable pub check_message : String → Result SiweMessage → Result (ℕ × String)
  unfolding verified
  check_message signature (ok msg) =
      if str_eq msg.domain siwe_domain
      then verified msg (siwe.verify msg signature siwe_domain)
      else err (text "SIWE domain isn't Tableland")
  check_message signature (err e) = err (flattened "parsing siwe" e)
  check_message signature (panic p) = panic p

  unfoldable pub check_token : Result (String × String) → Result (ℕ × String)
  unfolding check_message
  check_token (ok (message, signature)) = check_message signature (siwe.parse_message message)
  check_token (err e) = err (flattened "unmarshalling siwe auth message" e)
  check_token (panic p) = panic p

  unfoldable pub decoded : Result String → Result (ℕ × String)
  unfolding check_token
  decoded (ok s) = check_token (siwe.unmarshal s)
  decoded (err e) = err (flattened "decoding base64 siwe authorization" e)
  decoded (panic p) = panic p

  -- parseAuth
  unfoldable pub parse_auth : String → Result (ℕ × String)
  unfolding decoded
  parse_auth token = decoded (siwe.decode_string token)

  unfoldable pub with_issuer : HttpRequest → Result (ℕ × String) → Gate
  unfolding to_lower
  with_issuer r (ok (chain, issuer)) = passed (record r {
    context = record r.context { address = some (to_lower issuer); chain_id = some chain };
  })
  with_issuer r (err e) = refused_with 400 (flattened "parsing authorization" e)
  with_issuer r (panic p) = gate_panic p

  unfoldable pub authorize_parts : HttpRequest → List String → Gate
  unfolding with_issuer parse_auth
  authorize_parts r (before ∷ token ∷ []) = with_issuer r (parse_auth token)
  authorize_parts r _ = refused_with 400 (text "malformed authorization header provided")

  unfoldable pub check_authorization : HttpRequest → Gate
  unfolding authorize_parts split_bearer
  check_authorization r =
      if str_eq r.authorization ""
      then refused_with 401 (text "no authorization header provided")
      else authorize_parts r (split_bearer 0 r.authorization)

  module _ (method_of : String → Result String) where
    unfoldable pub authenticate_method : HttpRequest → Result String → Gate
    unfolding requires_authentication check_authorization
    authenticate_method r (ok name) =
        if requires_authentication name then check_authorization r else passed r
    authenticate_method r (err e) =
        refused_with 400 (text "request body doesn't have a method field")
    authenticate_method r (panic p) = gate_panic p

    unfoldable pub authenticate_body : HttpRequest → Result String → Gate
    unfolding authenticate_method
    authenticate_body r (ok b) = authenticate_method r (method_of b)
    authenticate_body r (err e) = refused_with 500 (text "reading request body")
    authenticate_body r (panic p) = gate_panic p

    unfoldable pub authenticate : HttpRequest → Gate
    unfolding authenticate_body
    authenticate r = authenticate_body r r.body

unfoldable pub through :
    {J : Type 0}
    → (HttpRequest → Writer J → Result (Writer J))
    → Gate
    → Writer J
    → Result (Writer J)
unfolding refuse_with
through next (passed r) w = next r w
through next (refused_with n e) w = ok (refuse_with n e w)
through next (gate_panic p) w = panic p

-- Authentication
unfoldable pub authentication :
    {J : Type 0}
    → Siwe
    → (String → Result String)
    → (HttpRequest → Writer J → Result (Writer J))
    → HttpRequest
    → Writer J
    → Result (Writer J)
unfolding through authenticate set_content_type
authentication siwe method_of next r w =
    through next (authenticate siwe method_of r) (set_content_type "application/json" w)

-- The chain of the path, if it is accepted.
unfoldable pub accepted_chain : ℤ → List ℕ → Option ℕ
accepted_chain chain [] = none
accepted_chain chain (a ∷ more) =
    let rest = accepted_chain chain more in if eq_ℤ chain (pos a) then some a else rest

unfoldable pub chain_gate : HttpRequest → Option ℕ → Gate
chain_gate r none = refused_with 400 (text "unsupported chain id")
chain_gate r (some chain) =
    passed (record r { context = record r.context { chain_id = some chain } })

unfoldable pub parsed_chain_gate : List ℕ → HttpRequest → Result ℤ → Gate
unfolding accepted_chain chain_gate
parsed_chain_gate accepted r (ok chain) = chain_gate r (accepted_chain chain accepted)
parsed_chain_gate accepted r (err e) = refused_with 400 (text "no chain id in path")
parsed_chain_gate accepted r (panic p) = gate_panic p

-- RESTChainID; `vars` is mux.Vars.
unfoldable pub rest_chain_id :
    {J : Type 0}
    → List ℕ
    → (String → String)
    → (HttpRequest → Writer J → Result (Writer J))
    → HttpRequest
    → Writer J
    → Result (Writer J)
unfolding through parsed_chain_gate in_int64 set_string
rest_chain_id accepted vars next r w =
    through next (parsed_chain_gate accepted r (in_int64 (set_string (vars "chainId")))) w
