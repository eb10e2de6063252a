-- ===== src/Telemetry/Batches.antt =====
-- About the metrics of a batch and the rows they come from (FetchMetrics of pkg/telemetry/storage/db.go).
use mathlib.Core.List.{Memᴰ}
use mathlib.Core.List.Memᴰ
use go_tableland.Prelude.{
  ℕ, zero, suc, ◌≡◌, refl, sym, ap, ◌∙◌, subst, inl, inr, Bool, true, false, ◌||◌, List, [], ◌∷◌,
  arith, ◌==◌, Option, none, some, Bool-cases, All,
}
use go_tableland.Errors.{Result, ok, err, panic, ok_injective}
use go_tableland.Telemetry.Payloads.{MetricType, Payload, Metric}
use go_tableland.Telemetry.{
  MetricRow, PayloadJson, type_of_number, rows_published, limit, stepped, decode_payload,
  decode_typed, decode_row, decode_cons, decode_rows, has_id,
}
use go_tableland.Telemetry.Publisher.{row_ids}
use go_tableland.Telemetry.Rows.{Distinct, mem-same}

-- ORDER BY returns rows of the table.
abbrev pub Reorders : (List MetricRow → List MetricRow) → Type 0
Reorders order = (rows : List MetricRow) (r : MetricRow) → Memᴰ r (order rows) → Memᴰ r rows

pub mem-limit :
    (n : ℕ) (rows : List MetricRow) (r : MetricRow) → Memᴰ r (limit n rows) → Memᴰ r rows
unfolding limit
mem-limit zero rows r m = absurd (Memᴰ.not-nil m)
mem-limit (suc n) [] r m = m
mem-limit (suc n) (s ∷ rows) r m = elim (Memᴰ.cases_cons m) [
  | inl e ↦ Memᴰ.head e
  | inr t ↦ Memᴰ.tail (mem-limit n rows r t)
]

pub mem-stepped :
    (stop : Option ℕ) (rows : List MetricRow) (r : MetricRow)
    → Memᴰ r (stepped stop rows)
    → Memᴰ r rows
unfolding stepped
mem-stepped none rows r m = m
mem-stepped (some n) rows r m = mem-limit n rows r m

pub mem-rows_published :
    (b : Bool) (rows : List MetricRow) (r : MetricRow)
    → Memᴰ r (rows_published b rows)
    → Memᴰ r rows
unfolding rows_published
mem-rows_published b [] r = λ m. m
mem-rows_published true (s ∷ rows) r = elim (Bool-cases s.published) [
  | inl e ↦ rw (e) (λ m. elim (Memᴰ.cases_cons m) [
    | inl p ↦ Memᴰ.head p
    | inr t ↦ Memᴰ.tail (mem-rows_published true rows r t)
  ])
  | inr e ↦ rw (e) (λ m. Memᴰ.tail (mem-rows_published true rows r m))
]
mem-rows_published false (s ∷ rows) r = elim (Bool-cases s.published) [
  | inr e ↦ rw (e) (λ m. elim (Memᴰ.cases_cons m) [
    | inl p ↦ Memᴰ.head p
    | inr t ↦ Memᴰ.tail (mem-rows_published false rows r t)
  ])
  | inl e ↦ rw (e) (λ m. Memᴰ.tail (mem-rows_published false rows r m))
]

module _ (json : PayloadJson) where
  -- A metric is what a row of the table decodes to.
  abbrev pub FromRow : List MetricRow → Metric → Type 0
  FromRow rows m = (r : MetricRow) × Memᴰ r rows × (decode_row json r ≡ ok m)

  pub decode_row-row_id :
      (r : MetricRow) (m : Metric) → decode_row json r ≡ ok m → m.row_id ≡ r.rowid
  unfolding decode_row
  decode_row-row_id r m = typed (type_of_number r.type)
    where
      payload :
          (t : MetricType) (p : Result Payload)
          → decode_payload json r t p ≡ ok m
          → m.row_id ≡ r.rowid
      payload t (ok p) h = ap (λ (x : Metric). x.row_id) (sym (ok_injective h))
      payload t (err e) h = cc
      payload t (panic s) h = cc

      typed : (t : Result MetricType) → decode_typed json r t ≡ ok m → m.row_id ≡ r.rowid
      typed (ok t) h = payload t (json.unmarshal t r.payload) h
      typed (err e) h = cc
      typed (panic s) h = cc

  pub decode_rows-FromRow :
      (rows from : List MetricRow) (ms : List Metric)
      → ((r : MetricRow) → Memᴰ r from → Memᴰ r rows)
      → decode_rows json from ≡ ok ms
      → All (FromRow rows) ms
  unfolding decode_rows
  decode_rows-FromRow rows [] ms sub = λ h. subst (All (FromRow rows)) (ok_injective h) tt
  decode_rows-FromRow rows (r ∷ from) ms sub =
      cons (λ rest. decode_rows-FromRow rows from rest (λ s i. sub s (Memᴰ.tail i)))
        (decode_row json r) (decode_rows json from) refl refl
    where
      cons :
          ((rest : List Metric) → decode_rows json from ≡ ok rest → All (FromRow rows) rest)
          → (a : Result Metric) (b : Result (List Metric)) → decode_row json r ≡ a
          → decode_rows json from ≡ b
          → decode_cons json a b ≡ ok ms
          → All (FromRow rows) ms
      cons later (ok m) (ok rest) e f h =
          subst (All (FromRow rows)) (ok_injective h) ((r, sub r (Memᴰ.head refl), e), later rest f)
      cons later (ok m) (err x) e f h = cc
      cons later (ok m) (panic s) e f h = cc
      cons later (err x) b e f h = cc
      cons later (panic s) b e f h = cc

  -- Every row of a batch that is decoded has its metric there.
  pub decode_rows-mem :
      (from : List MetricRow) (ms : List Metric) (r : MetricRow)
      → decode_rows json from ≡ ok ms
      → Memᴰ r from
      → (m : Metric) × Memᴰ m ms × (decode_row json r ≡ ok m)
  unfolding decode_rows
  decode_rows-mem [] ms r h i = absurd (Memᴰ.not-nil i)
  decode_rows-mem (s ∷ from) ms r h i =
      cons (λ rest f t. decode_rows-mem from rest r f t) (decode_row json s) (decode_rows json from)
        refl refl h
    where
      Found : List Metric → Type 0
      Found l = (m : Metric) × Memᴰ m l × (decode_row json r ≡ ok m)

      further : (m : Metric) (rest : List Metric) → Found rest → Found (m ∷ rest)
      further m rest (n, j, g) = (n, Memᴰ.tail j, g)

      cons :
          ((rest : List Metric) → decode_rows json from ≡ ok rest → Memᴰ r from → Found rest)
          → (a : Result Metric) (b : Result (List Metric)) → decode_row json s ≡ a
          → decode_rows json from ≡ b
          → decode_cons json a b ≡ ok ms
          → Found ms
      cons later (ok m) (ok rest) e f h = subst Found (ok_injective h) (elim (Memᴰ.cases_cons i) [
        | inl same ↦ (m, Memᴰ.head refl, ap (decode_row json) same ∙ e)
        | inr t ↦ further m rest (later rest f t)
      ])
      cons later (ok m) (err x) e f h = cc
      cons later (ok m) (panic s) e f h = cc
      cons later (err x) b e f h = cc
      cons later (panic s) b e f h = cc

  pub FromRow-later :
      (rows later : List MetricRow) (ms : List Metric)
      → ((r : MetricRow) → Memᴰ r rows → Memᴰ r later)
      → All (FromRow rows) ms
      → All (FromRow later) ms
  FromRow-later rows later [] sub a = tt
  FromRow-later rows later (m ∷ ms) sub ((r, i, e), a) =
      ((r, sub r i, e), FromRow-later rows later ms sub a)

  -- The row of a rowid in a batch decodes to a metric of it.
  pub row_ids-FromRow :
      (rows : List MetricRow) (ms : List Metric) (r : MetricRow)
      → Distinct rows
      → All (FromRow rows) ms
      → Memᴰ r rows
      → has_id r.rowid (row_ids ms) ≡ true
      → (m : Metric) × Memᴰ m ms × (decode_row json r ≡ ok m)
  unfolding has_id row_ids
  row_ids-FromRow rows [] r d a i h = cc
  row_ids-FromRow rows (m ∷ ms) r d ((s, j, e), a) i h = elim (Bool-cases (r.rowid == m.row_id)) [
    | inl b ↦
        let same = mem-same rows r s d i j (ground (arith, b) ∙ decode_row-row_id s m e) in
        (m, Memᴰ.head refl, ap (decode_row json) same ∙ e)
    | inr b ↦
        let (n, k, f) =
          row_ids-FromRow rows ms r d a i
            (ap (λ u. u || has_id r.rowid (row_ids ms)) (sym b) ∙ h) in
        (n, Memᴰ.tail k, f)
  ]
