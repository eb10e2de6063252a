-- ===== src/Service/Accepted.antt =====
-- About the statements that internal/tableland/impl/mesa.go accepts.
use go_tableland.Prelude.{
  ℕ, String, ◌≡◌, refl, sym, ap, ◌∙◌, subst, inl, inr, true, Option, some, List, [], ◌∷◌, str_eq,
  Bool-cases, Option-cases, str_eq_sound,
}
use go_tableland.Errors.{GoError, Result, ok, err, panic, ok_injective}
use go_tableland.Database.{RegistryRow, int64_key}
use go_tableland.Parsing.{Node, ValidatedTable}
use go_tableland.Parsing.Statements.{MutatingStmt, Mutating, bind_result, flatten_error}
use go_tableland.Parsing.Validator.{
  QueryValidator, parse_statements, mutating_stmt, validate_mutating_query,
}
use go_tableland.Parsing.OneTable.{AllTarget, HandedOn, validate_mutating_query-OneTable}
use go_tableland.Service.{
  run_sql_tx, ChainStack, Mesa, first_statement, get_table, stack_of, check_table_prefix,
  service_validate_write_query, relay_stack, relay_write_query,
}

pub bound :
    {A B : Type 0} (r : Result A) (f : A → Result B) (b : B)
    → bind_result r f ≡ ok b
    → (a : A) × (r ≡ ok a) × (f a ≡ ok b)
bound (ok a) f b h = (a, refl, h)
bound (err e) f b h = cc
bound (panic s) f b h = cc

pub unwrapped :
    {A : Type 0} (context : String) (r : Result A) (a : A)
    → flatten_error context r ≡ ok a
    → r ≡ ok a
unwrapped context (ok b) a h = h
unwrapped context (err e) a h = cc
unwrapped context (panic s) a h = cc

-- A list of statements that is handed on for a table begins with one of that table.
first-HandedOn :
    (parser : QueryValidator) (t : ValidatedTable) (stmts : List (Node × Option GoError))
    (ms : List Mutating) (m : MutatingStmt)
    → HandedOn parser t stmts ms
    → first_statement ms ≡ ok m
    → (m.table_id ≡ t.token_id) × (m.prefix ≡ t.prefix)
unfolding first_statement mutating_stmt
first-HandedOn parser t [] [] m h e = cc
first-HandedOn parser t [] (x ∷ ms) m h e = absurd h
first-HandedOn parser t ((n, o) ∷ rest) [] m h e = absurd h
first-HandedOn parser t ((n, o) ∷ rest) (x ∷ ms) m (b, h) e =
    let same : m ≡ mutating_stmt t n = ok_injective (sym e) ∙ b in
    (ap (λ (x : MutatingStmt). x.table_id) same, ap (λ (x : MutatingStmt). x.prefix) same)

-- A text that parses, whose statements all are on one table of the chain.
abbrev pub OnTable : QueryValidator → ℕ → String → ValidatedTable → Type 0
OnTable parser chain statement t =
    (stmts : List (Node × Option GoError)) × (parse_statements parser statement ≡ ok stmts)
    × (t.chain_id ≡ chain)
    × AllTarget parser t stmts

validated :
    (parser : QueryValidator) (chain : ℕ) (statement : String) (ms : List Mutating)
    (m : MutatingStmt)
    → validate_mutating_query parser statement chain ≡ ok ms
    → first_statement ms ≡ ok m
    → (t : ValidatedTable) × OnTable parser chain statement t
      × (m.table_id ≡ t.token_id)
      × (m.prefix ≡ t.prefix)
validated parser chain statement ms m h e =
    let (short, (stmts, parse, (t, on_chain, all, handed))) =
      validate_mutating_query-OneTable parser statement chain ms h in
    let (id, prefix) = first-HandedOn parser t stmts ms m handed e in
    (t, (stmts, parse, on_chain, all), id, prefix)

get_table-ok :
    (stack : ChainStack) (chain id : ℕ) (row : RegistryRow)
    → get_table stack chain id ≡ ok row
    → stack.store chain (int64_key id) ≡ some row
unfolding get_table
get_table-ok stack chain id row = elim (Option-cases (stack.store chain (int64_key id))) [
  | inl e ↦ rw (e, get_table) (λ h. cc)
  | inr (r, e) ↦ rw (e, get_table) (λ h. ap some (ok_injective h))
]

module _ (mesa : Mesa) where
  stack_of-ok :
      (chain : ℕ) (stack : ChainStack)
      → stack_of mesa chain ≡ ok stack
      → mesa.chain_stacks chain ≡ some stack
  unfolding stack_of
  stack_of-ok chain stack = elim (Option-cases (mesa.chain_stacks chain)) [
    | inl e ↦ rw (e, stack_of) (λ h. cc)
    | inr (s, e) ↦ rw (e, stack_of) (λ h. ap some (ok_injective h))
  ]

  check_table_prefix-ok :
      (m : MutatingStmt) (row : RegistryRow) (id : ℕ)
      → check_table_prefix mesa m row ≡ ok id
      → (row.prefix ≡ m.prefix) × (m.table_id ≡ id)
  unfolding check_table_prefix
  check_table_prefix-ok m row id = elim (Bool-cases (str_eq row.prefix m.prefix)) [
    | inl b ↦ rw (b, check_table_prefix) (λ h. (str_eq_sound row.prefix m.prefix b, ok_injective h))
    | inr b ↦ rw (b, check_table_prefix) (λ h. cc)
  ]

  relay_stack-ok :
      (stack relay : ChainStack) (chain : ℕ)
      → relay_stack mesa stack chain ≡ ok relay
      → (stack.allow_transaction_relay ≡ true) × (stack ≡ relay)
  unfolding relay_stack
  relay_stack-ok stack relay chain = elim (Bool-cases stack.allow_transaction_relay) [
    | inl b ↦ rw (b, relay_stack) (λ h. (refl, ok_injective h))
    | inr b ↦ rw (b, relay_stack) (λ h. cc)
  ]

  -- If ValidateWriteQuery of the service returns a table id, the chain has a stack, the text
  -- parses and all its statements are valid and on one table of the chain with that id, and the
  -- store has a table under that id, whose prefix is that of the statements' table.
  pub service_validate_write_query-ok :
      (chain id : ℕ) (statement : String)
      → service_validate_write_query mesa chain statement ≡ ok id
      → (stack : ChainStack) × (t : ValidatedTable) × (row : RegistryRow) × (mesa.chain_stacks chain
          ≡ some stack)
        × OnTable mesa.parser chain statement t
        × (t.token_id ≡ id)
        × (stack.store chain (int64_key id) ≡ some row)
        × (row.prefix ≡ t.prefix)
  unfolding service_validate_write_query
  service_validate_write_query-ok chain id statement h =
      let (stack, s, h1) = bound (stack_of mesa chain) _ id h in
      let (ms, v, h2) =
        bound
          (flatten_error "validating query" (validate_mutating_query mesa.parser statement chain)) _
          id h1 in
      let (m, f, h3) = bound (first_statement ms) _ id h2 in
      let (row, g, h4) =
        bound (flatten_error "getting table" (get_table stack chain m.table_id)) _ id h3 in
      let (prefix, same) = check_table_prefix-ok m row id h4 in
      let (t, on, tid, tprefix) =
        validated mesa.parser chain statement ms m (unwrapped "validating query" _ ms v) f in
      (
        stack,
        t,
        row,
        stack_of-ok chain stack s,
        on,
        sym tid ∙ same,
        subst (λ x. stack.store chain (int64_key x) ≡ some row) same
            (get_table-ok stack chain m.table_id row (unwrapped "getting table" _ row g)),
        prefix ∙ tprefix,
      )

  -- If RelayWriteQuery returns a transaction, the chain has a stack that allows relaying, the
  -- text parses and all its statements are valid and on one table of the chain, and the
  -- transaction is the answer to a RunSQL of the caller with that table's id and that text.
  pub relay_write_query-ok :
      (chain caller : ℕ) (statement hash : String)
      → relay_write_query mesa chain caller statement ≡ ok hash
      → (stack : ChainStack) × (t : ValidatedTable) × (mesa.chain_stacks chain ≡ some stack)
        × (stack.allow_transaction_relay ≡ true)
        × OnTable mesa.parser chain statement t
        × (stack.send (run_sql_tx caller t.token_id statement) ≡ ok hash)
  unfolding relay_write_query
  relay_write_query-ok chain caller statement hash h =
      let (stack, s, h1) = bound (stack_of mesa chain) _ hash h in
      let (relay, r, h2) = bound (relay_stack mesa stack chain) _ hash h1 in
      let (ms, v, h3) =
        bound
          (flatten_error "validating query" (validate_mutating_query mesa.parser statement chain)) _
          hash h2 in
      let (m, f, h4) = bound (first_statement ms) _ hash h3 in
      let (allowed, same) = relay_stack-ok stack relay chain r in
      let (t, on, tid, tprefix) =
        validated mesa.parser chain statement ms m (unwrapped "validating query" _ ms v) f in
      (
        stack,
        t,
        stack_of-ok chain stack s,
        allowed,
        on,
        ap (λ (x : ChainStack). x.send (run_sql_tx caller t.token_id statement)) same
            ∙ ap (λ x. relay.send (run_sql_tx caller x statement)) (sym tid)
            ∙ unwrapped "sending tx" _ hash h4,
      )
