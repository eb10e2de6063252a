-- ===== src/Api/Rpc/Relayed.antt =====
-- About RelayWriteQuery of internal/router/controllers/legacy/rpcservice.go behind the route /rpc
-- (internal/router/router.go): Authentication, the rate limiter and the service.
use go_tableland.Prelude.{
  some_injective, ℕ, String, ◌≡◌, sym, ap, ◌∙◌, subst, ◌⊎◌, inl, inr, true, false, Option, none,
  some, str_eq, if◌then◌else◌, Bool-cases, Option-cases,
}
use go_tableland.Errors.{Result, ok, ok_injective}
use go_tableland.Parsing.{ValidatedTable}
use go_tableland.Service.{run_sql_tx, ChainStack, Mesa}
use go_tableland.Service.Accepted.{bound, unwrapped, OnTable, relay_write_query-ok}
use go_tableland.Api.Middlewares.{
  Context, HttpRequest, passed, SiweMessage, Siwe, to_lower, authenticate,
}
use go_tableland.Api.Middlewares.RateLimit.{extract_client_ip, ip_key, rate_key_of, rate_limit_key}
use go_tableland.Api.Rpc.{context_chain, caller_of, rpc_relay_write_query}
use go_tableland.Api.Rpc.Signed.{Signed, Named, authenticate-Named}

context_chain-ok : (c : Context) (chain : ℕ) → context_chain c ≡ ok chain → c.chain_id ≡ some chain
unfolding context_chain
context_chain-ok c chain = elim (Option-cases c.chain_id) [
  | inl e ↦ rw (e, context_chain) (λ h. absurd cc)
  | inr (a, e) ↦ rw (e, context_chain) (λ h. ap some (ok_injective h))
]

caller_of-ok :
    (missing : String) (a : Option String) (caller : String)
    → caller_of missing a ≡ ok caller
    → (a ≡ some caller) × (str_eq caller "" ≡ false)
unfolding caller_of
caller_of-ok missing none caller = λ h. absurd cc
caller_of-ok missing (some a) caller = elim (Bool-cases (str_eq a "")) [
  | inl b ↦ rw (b, caller_of) (λ h. absurd cc)
  | inr b ↦
      rw (b, caller_of)
        (λ h. (ap some (ok_injective h), ap (λ x. str_eq x "") (sym (ok_injective h)) ∙ b))
]

rate_limit_key-address :
    (split_host_port : String → Result String) (r : HttpRequest) (caller : String)
    → r.context.address ≡ some caller
    → str_eq caller "" ≡ false
    → rate_limit_key split_host_port r ≡ ok caller
unfolding rate_limit_key rate_key_of
rate_limit_key-address split_host_port r caller e b =
    ap (rate_key_of split_host_port r) e
    ∙ ap
        (λ c. if c then ip_key split_host_port (extract_client_ip split_host_port r) else ok caller)
        b

-- The contract of the chain is sent the statement, on a table of the chain, for the caller.
abbrev pub SentFor : Mesa → (String → ℕ) → ℕ → String → String → String → Type 0
SentFor mesa hex_to_address chain caller statement hash =
    (stack : ChainStack) × (t : ValidatedTable) × (mesa.chain_stacks chain ≡ some stack)
    × (stack.allow_transaction_relay ≡ true)
    × OnTable mesa.parser chain statement t
    × (stack.send (run_sql_tx (hex_to_address caller) t.token_id statement) ≡ ok hash)

module _ (siwe : Siwe) (method_of : String → Result String)
    (split_host_port : String → Result String) (mesa : Mesa) (hex_to_address : String → ℕ) where
  -- If a request whose context names no address passes Authentication, and RelayWriteQuery of the
  -- JSON-RPC service returns a transaction for its context, then the request's token is a message
  -- for the domain Tableland that its signature verifies, the contract of the message's chain,
  -- whose stack allows relaying, was sent the statement for the message's address in lower case,
  -- on the one table of that chain that all its parts are on, and the rate limiter counts the
  -- request under that address.
  pub rpc_relay_write_query-Signed :
      (r r' : HttpRequest) (statement hash : String)
      → r.context.address ≡ none
      → authenticate siwe method_of r ≡ passed r'
      → rpc_relay_write_query mesa hex_to_address r'.context statement ≡ ok hash
      → (msg : SiweMessage) × Signed siwe r msg
        × SentFor mesa hex_to_address msg.chain_id (to_lower msg.address) statement hash
        × (rate_limit_key split_host_port r' ≡ ok (to_lower msg.address))
  unfolding rpc_relay_write_query
  rpc_relay_write_query-Signed r r' statement hash fresh gate h =
      let (chain, c, h1) = bound (context_chain r'.context) _ hash h in
      let (caller, a, h2) =
        bound (caller_of "no controller address found in context" r'.context.address) _ hash h1 in
      let on_chain = context_chain-ok r'.context chain c in
      let (address, nonempty) =
        caller_of-ok "no controller address found in context" r'.context.address caller a in
      let sent : SentFor mesa hex_to_address chain caller statement hash =
        relay_write_query-ok mesa chain (hex_to_address caller) statement hash
          (unwrapped "calling RelayWriteQuery" _ hash h2) in
      by (authenticate-Named siwe method_of r r' gate) chain caller on_chain address nonempty sent
    where
      by :
          (r ≡ r') ⊎ Named siwe r r'
          → (chain : ℕ) (caller : String) → r'.context.chain_id ≡ some chain
          → r'.context.address ≡ some caller
          → str_eq caller "" ≡ false
          → SentFor mesa hex_to_address chain caller statement hash
          → (msg : SiweMessage) × Signed siwe r msg
            × SentFor mesa hex_to_address msg.chain_id (to_lower msg.address) statement hash
            × (rate_limit_key split_host_port r' ≡ ok (to_lower msg.address))
      by (inl same) chain caller c a nonempty sent =
          let no_caller : none ≡ some caller =
            sym fresh ∙ ap (λ (x : HttpRequest). x.context.address) same ∙ a in
          absurd cc
      by (inr (msg, signed, address, on_chain)) chain caller c a nonempty sent =
          let its_chain : chain ≡ msg.chain_id = some_injective (sym c ∙ on_chain) in
          let its_caller : caller ≡ to_lower msg.address = some_injective (sym a ∙ address) in
          (
            msg,
            signed,
            subst (λ n. SentFor mesa hex_to_address n (to_lower msg.address) statement hash)
                its_chain
                (subst (λ n. SentFor mesa hex_to_address chain n statement hash) its_caller sent),
            rate_limit_key-address split_host_port r' caller a nonempty ∙ ap ok its_caller,
          )
