-- ===== src/Names/Printed.antt =====
-- About the names of tables: NewTableFromName of internal/tableland/tableland.go on what Table.Name of
-- pkg/sqlstore/table.go prints.
use Prim.Native.Char.{Char, code}
use Prim.Native.String.{String, ◌++◌ as str_append}
use mathlib.Core.List.{append_assoc}
use text.Mathlib.TextLemmas.{
  nil-append, cons-append, append-nil as str_append-nil, append_assoc as str_append_assoc,
}
use text.Mathlib.TextEquality.{Char-path}
use go_tableland.Prelude.{
  pos, decimal, ℕ, ◌+◌, ◌<◌, ◌^◌, ◌≡◌, refl, sym, ap, ◌∙◌, Bool, true, false, some, List, [], ◌∷◌,
  ◌++◌, arith, ◌==◌, if◌then◌else◌,
}
use go_tableland.Prelude.Decimal.{decimal-digits}
use go_tableland.Errors.{ok}
use go_tableland.Names.{
  set_string, in_int64, add_first, split, join, last_two, table_named, name_of_parts,
  new_table_from_name,
}
use go_tableland.Names.Numbers.{single-append, snoc-append, new_table_id-decimal, in_int64-decimal}
use go_tableland.System.{Table, full_table_name, show_ℤ}

split-digit :
    (d : ℕ) (c : Char) (rest : String)
    → d < 10
    → code c ≡ 48 + d
    → split rest ≡ rest ∷ []
    → split (String.◌∷◌ c rest) ≡ String.◌∷◌ c rest ∷ []
unfolding split add_first
split-digit d c rest h k one =
    let other : (code c == 95) ≡ false = ground (arith, h, k) in
    ap (λ b. if b then "" ∷ split rest else add_first (String.◌∷◌ c "") (split rest)) other
    ∙ ap (add_first (String.◌∷◌ c "")) one
    ∙ ap (λ t. t ∷ []) (single-append c rest)

split-decimal :
    (n : ℕ) (rest : String)
    → split rest ≡ rest ∷ []
    → split (str_append (decimal n) rest) ≡ str_append (decimal n) rest ∷ []
split-decimal =
    decimal-digits
      (λ n s.
        (rest : String)
        → split rest ≡ rest ∷ []
        → split (str_append s rest) ≡ str_append s rest ∷ [])
      (λ d c h k rest one.
        ap split (single-append c rest)
        ∙ split-digit d c rest h k one
        ∙ ap (λ t. t ∷ []) (sym (single-append c rest)))
      (λ n d c s h k before rest one.
        ap split (snoc-append s c rest)
        ∙ before (String.◌∷◌ c rest) (split-digit d c rest h k one)
        ∙ ap (λ t. t ∷ []) (sym (snoc-append s c rest)))

-- Splitting gives at least one part.
split-parts : (s : String) → (x : String) × (xs : List String) × (split s ≡ x ∷ xs)
unfolding split add_first
split-parts String.[] = ("", [], refl)
split-parts (String.◌∷◌ c s) = let (x, xs, e) = split-parts s in go (code c == 95) x xs e
  where
    go :
        (b : Bool) (x : String) (xs : List String)
        → split s ≡ x ∷ xs
        → (y : String) × (ys : List String) × ((if b
              then "" ∷ split s
              else add_first (String.◌∷◌ c "") (split s))
            ≡ y ∷ ys)
    go true x xs e = ("", split s, refl)
    go false x xs e = (str_append (String.◌∷◌ c "") x, xs, ap (add_first (String.◌∷◌ c "")) e)

add_first-append :
    (c : String) (xs ys : List String) (x : String) (rest : List String)
    → xs ≡ x ∷ rest
    → add_first c (xs ++ ys) ≡ add_first c xs ++ ys
unfolding add_first
add_first-append c xs ys x rest e =
    ap (λ l. add_first c (l ++ ys)) e ∙ sym (ap (λ l. add_first c l ++ ys) e)

split-append : (s d : String) → split (str_append s (str_append "_" d)) ≡ split s ++ split d
unfolding split add_first
split-append String.[] d = ap split (nil-append (str_append "_" d)) ∙ ap split (single-append "_" d)
split-append (String.◌∷◌ c s) d =
    let (x, xs, e) = split-parts s in
    ap split (cons-append c s (str_append "_" d)) ∙ go (code c == 95) (split-append s d) x xs e
  where
    parts : Bool → List String → List String
    parts b rest = if b then "" ∷ rest else add_first (String.◌∷◌ c "") rest

    go :
        (b : Bool)
        → split (str_append s (str_append "_" d)) ≡ split s ++ split d
        → (x : String) (xs : List String) → split s ≡ x ∷ xs
        → parts b (split (str_append s (str_append "_" d))) ≡ parts b (split s) ++ split d
    go true i x xs e = ap (parts true) i
    go false i x xs e =
        ap (parts false) i ∙ add_first-append (String.◌∷◌ c "") (split s) (split d) x xs e

join-add_first :
    (c : Char) (xs : List String) (x : String) (rest : List String)
    → xs ≡ x ∷ rest
    → join (add_first (String.◌∷◌ c "") xs) ≡ String.◌∷◌ c (join xs)
unfolding join add_first
join-add_first c xs x rest e =
    ap (λ l. join (add_first (String.◌∷◌ c "") l)) e
    ∙ go rest
    ∙ sym (ap (λ l. String.◌∷◌ c (join l)) e)
  where
    go :
        (rest : List String)
        → join (str_append (String.◌∷◌ c "") x ∷ rest) ≡ String.◌∷◌ c (join (x ∷ rest))
    go [] = single-append c x
    go (y ∷ ys) =
        str_append_assoc (String.◌∷◌ c "") x (str_append "_" (join (y ∷ ys)))
        ∙ single-append c (str_append x (str_append "_" (join (y ∷ ys))))

join-split : (s : String) → join (split s) ≡ s
unfolding join split
join-split String.[] = refl
join-split (String.◌∷◌ c s) =
    let (x, xs, e) = split-parts s in go (code c == 95) refl (join-split s) x xs e
  where
    go :
        (b : Bool)
        → (code c == 95) ≡ b
        → join (split s) ≡ s
        → (x : String) (xs : List String) → split s ≡ x ∷ xs
        → join (if b then "" ∷ split s else add_first (String.◌∷◌ c "") (split s)) ≡ String.◌∷◌ c s
    go true u i x xs e =
        let underscore : c ≡ "_" = Char-path c "_" (ground (arith, u)) in
        ap (λ l. join ("" ∷ l)) e
        ∙ nil-append (str_append "_" (join (x ∷ xs)))
        ∙ ap (λ l. str_append "_" (join l)) (sym e)
        ∙ ap (str_append "_") i
        ∙ single-append "_" s
        ∙ ap (λ d. String.◌∷◌ d s) (sym underscore)
    go false u i x xs e = join-add_first c (split s) x xs e ∙ ap (String.◌∷◌ c) i

last_two-append :
    (xs : List String) (a b : String) → last_two (xs ++ (a ∷ b ∷ [])) ≡ some (xs, a, b)
unfolding last_two
last_two-append [] a b = refl
last_two-append (x ∷ []) a b = refl
last_two-append (x ∷ y ∷ []) a b = refl
last_two-append (x ∷ y ∷ z ∷ rest) a b = rw (last_two-append (y ∷ z ∷ rest) a b) refl

split-number : (n : ℕ) → split (decimal n) ≡ decimal n ∷ []
unfolding split
split-number n =
    let nothing = str_append-nil (decimal n) in
    ap split (sym nothing) ∙ split-decimal n "" refl ∙ ap (λ t. t ∷ []) nothing

-- A name as it is printed.
abbrev printed : String → ℕ → ℕ → String
printed prefix chain id =
    str_append (str_append (str_append (str_append prefix "_") (decimal chain)) "_") (decimal id)

split-printed :
    (prefix : String) (chain id : ℕ)
    → split (printed prefix chain id) ≡ split prefix ++ (decimal chain ∷ decimal id ∷ [])
split-printed prefix chain id =
    let front = str_append (str_append prefix "_") (decimal chain) in
    ap split (str_append_assoc front "_" (decimal id))
    ∙ split-append front (decimal id)
    ∙ ap (λ t. split t ++ split (decimal id)) (str_append_assoc prefix "_" (decimal chain))
    ∙ ap (λ l. l ++ split (decimal id)) (split-append prefix (decimal chain))
    ∙ ap (λ l. (split prefix ++ l) ++ split (decimal id)) (split-number chain)
    ∙ ap (λ l. (split prefix ++ (decimal chain ∷ [])) ++ l) (split-number id)
    ∙ append_assoc (split prefix) (decimal chain ∷ []) (decimal id ∷ [])

-- The name of a table whose id is not negative and whose chain is below 2 ^ 63 is read as the
-- prefix, the chain and the id of the table, whatever underscores the prefix has.
pub new_table_from_name-full_table_name :
    (t : Table) (id : ℕ)
    → t.id ≡ pos id
    → t.chain_id < 2 ^ 63
    → new_table_from_name (full_table_name t)
      ≡ ok (record { prefix = t.prefix; chain_id = pos t.chain_id; id = id })
unfolding new_table_from_name full_table_name show_ℤ name_of_parts table_named
new_table_from_name-full_table_name t id e h =
    ap
      (λ i. name_of_parts (
        last_two (
          split (
            str_append (str_append (str_append (str_append t.prefix "_") (decimal t.chain_id)) "_")
              (show_ℤ i)))))
      e
    ∙ ap (λ l. name_of_parts (last_two l)) (split-printed t.prefix t.chain_id id)
    ∙ ap name_of_parts (last_two-append (split t.prefix) (decimal t.chain_id) (decimal id))
    ∙ ap (λ q. table_named (split t.prefix) q (in_int64 (set_string (decimal t.chain_id))))
        (new_table_id-decimal id)
    ∙ ap (table_named (split t.prefix) (ok id)) (in_int64-decimal t.chain_id h)
    ∙ ap (λ p. ok (record { prefix = p; chain_id = pos t.chain_id; id = id })) (join-split t.prefix)
