-- ===== src/Parsing/OneTable.antt =====
-- About ValidateMutatingQuery of pkg/parsing/impl/validator.go.
use go_tableland.Prelude.{
  ℕ, ◌≤◌, String, len, ◌≡◌, refl, sym, ap, ◌∙◌, subst, inl, inr, true, Option, none, some, List, [],
  ◌∷◌, arith, str_eq, ltb, ◌==◌, Bool-cases, str_eq_sound,
}
use go_tableland.Errors.{GoError, Result, ok, err, panic, ok_injective}
use go_tableland.Parsing.{
  Node, insert, update, delete, grant, revoke, create_table, select, ValidatedTable,
}
use go_tableland.Parsing.Statements.{Mutating, base, bind_result}
use go_tableland.Parsing.Validator.{
  QueryValidator, parse_statements, validate_node, same_target, validate_loop, mutating_stmt,
  to_mutating, to_mutating_all, check_target, validate_mutating_query,
}

some_inj : {A : Type 0} {a b : A} → some a ≡ some b → a ≡ b
some_inj e = cc

module _ (pp : QueryValidator) where
  -- Every statement parsed without an error, and references the target's table.
  abbrev pub AllTarget : ValidatedTable → List (Node × Option GoError) → Type 0
  AllTarget t [] = Unit
  AllTarget t ((n, e) ∷ rest) =
      (e ≡ none)
      × ((ref : ValidatedTable) × (validate_node pp n ≡ ok ref) × (ref.name ≡ t.name))
      × AllTarget t rest

  bind_result-ok :
      {A B : Type 0} (r : Result A) (f : A → Result B) (b : B)
      → bind_result r f ≡ ok b
      → (a : A) × (r ≡ ok a) × (f a ≡ ok b)
  bind_result-ok (ok a) f b h = (a, refl, h)
  bind_result-ok (err e) f b h = cc
  bind_result-ok (panic s) f b h = cc

  same_target-ok :
      (t ref t' : ValidatedTable)
      → same_target (some t) ref ≡ ok t'
      → (t' ≡ t) × (ref.name ≡ t.name)
  unfolding same_target
  same_target-ok t ref t' = elim (Bool-cases (str_eq t.name ref.name)) [
    | inl e ↦ rw (e, same_target) (λ h. (cc, sym (str_eq_sound _ _ e)))
    | inr e ↦ rw (e, same_target) (λ h. cc)
  ]

  validate_loop-AllTarget :
      (t : ValidatedTable) (stmts : List (Node × Option GoError)) (o : Option ValidatedTable)
      → validate_loop pp (some t) stmts ≡ ok o
      → (o ≡ some t) × AllTarget t stmts
  unfolding validate_loop
  validate_loop-AllTarget t [] o h = (cc, tt)
  validate_loop-AllTarget t ((n, some e) ∷ rest) o h = cc
  validate_loop-AllTarget t ((n, none) ∷ rest) o h =
      let (t', e, k) = bind_result-ok _ _ o h in
      let (ref, v, s) = bind_result-ok _ _ t' e in
      let (same, name) = same_target-ok t ref t' s in
      let (last, all) =
        validate_loop-AllTarget t rest o
          (subst (λ x. validate_loop pp (some x) rest ≡ ok o) same k) in
      (last, (refl, (ref, v, name), all))

  -- The statements that are handed on: those of the text, with the target's table.
  abbrev pub HandedOn : ValidatedTable → List (Node × Option GoError) → List Mutating → Type 0
  HandedOn t [] [] = Unit
  HandedOn t ((n, e) ∷ rest) (m ∷ ms) = (base m ≡ mutating_stmt t n) × HandedOn t rest ms
  HandedOn t _ _ = ⊥

  to_mutating-base :
      (t : ValidatedTable) (n : Node) (m : Mutating)
      → to_mutating t n ≡ ok m
      → base m ≡ mutating_stmt t n
  unfolding to_mutating base
  to_mutating-base t (insert x) m h = ap base (sym (ok_injective h))
  to_mutating-base t (update x) m h = ap base (sym (ok_injective h))
  to_mutating-base t (delete x) m h = ap base (sym (ok_injective h))
  to_mutating-base t (grant g) m h = ap base (sym (ok_injective h))
  to_mutating-base t (revoke g) m h = ap base (sym (ok_injective h))
  to_mutating-base t (create_table c) m h = cc
  to_mutating-base t (select c) m h = cc

  to_mutating_all-HandedOn :
      (t : ValidatedTable) (stmts : List (Node × Option GoError)) (ms : List Mutating)
      → to_mutating_all t stmts ≡ ok ms
      → HandedOn t stmts ms
  unfolding to_mutating_all
  to_mutating_all-HandedOn t [] [] h = tt
  to_mutating_all-HandedOn t [] (m ∷ ms) h = cc
  to_mutating_all-HandedOn t ((n, e) ∷ rest) ms h =
      let (m, hm, k) =
        bind_result-ok (to_mutating t n)
          (λ x. bind_result (to_mutating_all t rest) λ xs. ok (x ∷ xs)) ms h in
      let (ms', hms, l) = bind_result-ok (to_mutating_all t rest) (λ xs. ok (m ∷ xs)) ms k in
      let both : HandedOn t ((n, e) ∷ rest) (m ∷ ms') =
        (to_mutating-base t n m hm, to_mutating_all-HandedOn t rest ms' hms) in
      subst (λ x. HandedOn t ((n, e) ∷ rest) x) (ok_injective l) both

  first_target :
      (stmts : List (Node × Option GoError)) (o : Option ValidatedTable) (t : ValidatedTable)
      → validate_loop pp none stmts ≡ ok o
      → o ≡ some t
      → AllTarget t stmts
  unfolding validate_loop same_target
  first_target [] o t h e = tt
  first_target ((n, some x) ∷ rest) o t h e = cc
  first_target ((n, none) ∷ rest) o t h e =
      let (t', h', k) =
        bind_result-ok (bind_result (validate_node pp n) (same_target none))
          (λ x. validate_loop pp (some x) rest) o h in
      let (ref, v, s) = bind_result-ok (validate_node pp n) (same_target none) t' h' in
      let (last, all) = validate_loop-AllTarget t' rest o k in
      let same : t' ≡ t = some_inj (sym last ∙ e) in
      (
        refl,
        (ref, v, ap (λ (x : ValidatedTable). x.name) (ok_injective s ∙ same)),
        subst (λ x. AllTarget x rest) same all,
      )

  check_target-ok :
      (chain : ℕ) (o : Option ValidatedTable) (t : ValidatedTable)
      → check_target chain o ≡ ok t
      → (o ≡ some t) × (t.chain_id ≡ chain)
  unfolding check_target
  check_target-ok chain none t = λ h. cc
  check_target-ok chain (some x) t = elim (Bool-cases (x.chain_id == chain)) [
    | inl e ↦
        rw (e, check_target)
          (λ h.
            let same : x ≡ t = ok_injective h in
            (ap some same, ap (λ (y : ValidatedTable). y.chain_id) (sym same) ∙ eq_sound _ _ e))
    | inr e ↦ rw (e, check_target) (λ h. cc)
  ]
    where
      eq_sound : (a b : ℕ) → (a == b) ≡ true → a ≡ b
      eq_sound a b h = ground arith

  -- A mutating query that is accepted is not longer than the maximum, has a parse with
  -- statements, and has one target table on the given chain: every statement parsed without an
  -- error, is valid and references a table of the target's name, and the statements handed on are
  -- those of the text, in order, with the target's id and names.
  pub validate_mutating_query-OneTable :
      (query : String) (chain : ℕ) (ms : List Mutating)
      → validate_mutating_query pp query chain ≡ ok ms
      → (len query ≤ pp.max_write_query_size)
        × ((stmts : List (Node × Option GoError)) × (parse_statements pp query ≡ ok stmts)
            × ((t : ValidatedTable) × (t.chain_id ≡ chain)
                × AllTarget t stmts
                × HandedOn t stmts ms))
  unfolding validate_mutating_query
  validate_mutating_query-OneTable query chain ms =
      elim (Bool-cases (ltb pp.max_write_query_size (len query))) [
        | inl e ↦ rw (e, validate_mutating_query) (λ h. cc)
        | inr e ↦
            rw (e, validate_mutating_query)
              (λ h.
                let (stmts, p, k) = bind_result-ok (parse_statements pp query) _ ms h in
                let (o, l, k') = bind_result-ok (validate_loop pp none stmts) _ ms k in
                let (t, c, k2) = bind_result-ok (check_target chain o) _ ms k' in
                let (some_t, on_chain) = check_target-ok chain o t c in
                (
                  ground (arith, e),
                  (
                    stmts,
                    p,
                    (
                      t,
                      on_chain,
                      first_target stmts o t l some_t,
                      to_mutating_all-HandedOn t stmts ms k2,
                    ),
                  ),
                ))
      ]
