-- ===== src/Telemetry/Rows.antt =====
-- About the rows of system_metrics (pkg/telemetry/storage/db.go).
use mathlib.Core.List.{Memᴰ}
use mathlib.Core.List.Memᴰ
use go_tableland.Prelude.{
  ℤ, ltb_ℤ, ℕ, ◌<◌, String, ◌≡◌, refl, sym, ap, ◌∙◌, subst, ◌≢◌, inl, inr, Bool, true, false, ◌&&◌,
  Option, none, some, List, [], ◌∷◌, ◌++◌, arith, Bool-cases, All, All-append,
}
use go_tableland.Errors.{GoError, Result, ok, err, panic}
use go_tableland.Telemetry.Payloads.{MetricType, Payload, Metric}
use go_tableland.Telemetry.{
  MetricRow, PayloadJson, metric_type, next_rowid, insert_metric_row, insert_metric, store_metric,
  collect_typed, collect, has_id, update_published, delete_old_rows,
}
use go_tableland.Telemetry.Publisher.{Arrival, World, collect_all, arrive}

-- No two rows have one rowid.
abbrev pub Distinct : List MetricRow → Type 0
Distinct [] = Unit
Distinct (r ∷ rs) = All (λ (s : MetricRow). r.rowid ≢ s.rowid) rs × Distinct rs

-- A row that is in the table and not published.
abbrev pub Held : MetricRow → List MetricRow → Type 0
Held r rows = Memᴰ r rows × (r.published ≡ false)

-- What collecting does with the rows.
abbrev pub Extends : List MetricRow → List MetricRow → Type 0
Extends rows rows' =
    ((r : MetricRow) → Memᴰ r rows → Memᴰ r rows') × (Distinct rows → Distinct rows')

Extends-refl : (rows : List MetricRow) → Extends rows rows
Extends-refl rows = (λ r h. h, λ d. d)

Extends-trans : (a b c : List MetricRow) → Extends a b → Extends b c → Extends a c
Extends-trans a b c (f, d) (g, e) = (λ r h. g r (f r h), λ h. e (d h))

pub All-mem : {A : Type 0} (P : A → Type 0) (xs : List A) (x : A) → All P xs → Memᴰ x xs → P x
All-mem P [] x a m = absurd (Memᴰ.not-nil m)
All-mem P (y ∷ ys) x (p, ps) m = elim (Memᴰ.cases_cons m) [
  | inl e ↦ subst P (sym e) p
  | inr t ↦ All-mem P ys x ps t
]

mem-left : (r : MetricRow) (xs ys : List MetricRow) → Memᴰ r xs → Memᴰ r (xs ++ ys)
mem-left r [] ys m = absurd (Memᴰ.not-nil m)
mem-left r (x ∷ xs) ys m = elim (Memᴰ.cases_cons m) [
  | inl e ↦ Memᴰ.head e
  | inr t ↦ Memᴰ.tail (mem-left r xs ys t)
]

below_next : (rows : List MetricRow) → All (λ (r : MetricRow). r.rowid < next_rowid rows) rows
unfolding next_rowid
below_next [] = tt
below_next (r ∷ rs) = (ground arith, weaken rs (below_next rs))
  where
    weaken :
        (xs : List MetricRow)
        → All (λ (s : MetricRow). s.rowid < next_rowid rs) xs
        → All (λ (s : MetricRow). s.rowid < next_rowid (r ∷ rs)) xs
    weaken [] a = tt
    weaken (x ∷ xs) (p, a) = (ground arith, weaken xs a)

Distinct-last :
    (rows : List MetricRow) (r : MetricRow)
    → All (λ (s : MetricRow). s.rowid < r.rowid) rows
    → Distinct rows
    → Distinct (rows ++ (r ∷ []))
Distinct-last [] r a d = (tt, tt)
Distinct-last (s ∷ rows) r (lt, a) (n, d) =
    (All-append _ rows (r ∷ []) n ((λ e. omega (arith, e, lt)), tt), Distinct-last rows r a d)

insert_metric-Extends :
    (json : PayloadJson) (fault : Option GoError) (m : Metric) (payload : Result String)
    (rows : List MetricRow)
    → Extends rows (insert_metric json fault m payload rows).1
unfolding insert_metric insert_metric_row
insert_metric-Extends json none m (ok s) rows =
    (λ r. mem-left r rows _, Distinct-last rows _ (below_next rows))
insert_metric-Extends json (some e) m (ok s) rows = Extends-refl rows
insert_metric-Extends json fault m (err e) rows = Extends-refl rows
insert_metric-Extends json fault m (panic s) rows = Extends-refl rows

collect_typed-Extends :
    (json : PayloadJson) (fault : Option GoError) (t : Result MetricType) (now : ℤ) (p : Payload)
    (rows : List MetricRow)
    → Extends rows (collect_typed json fault t now p rows).1
unfolding collect_typed store_metric
collect_typed-Extends json fault (ok t) now p rows =
    let m : Metric = record { row_id = 0; version = 1; timestamp = now; type = t; payload = p } in
    insert_metric-Extends json fault m (json.marshal p) rows
collect_typed-Extends json fault (err e) now p rows = Extends-refl rows
collect_typed-Extends json fault (panic s) now p rows = Extends-refl rows

collect_all-Extends :
    (json : PayloadJson) (arrived : List Arrival) (rows : List MetricRow)
    → Extends rows (collect_all json arrived rows)
unfolding collect_all collect
collect_all-Extends json [] rows = Extends-refl rows
collect_all-Extends json (a ∷ others) rows =
    Extends-trans rows _ _
      (collect_typed-Extends json a.fault (metric_type a.payload) a.now a.payload rows)
      (collect_all-Extends json others _)

pub arrive-Extends :
    (json : PayloadJson) (w : World)
    → Extends w.rows (arrive json w).rows × ((arrive json w).received ≡ w.received)
unfolding arrive
arrive-Extends json w = go w.arrivals
  where
    go :
        (a : List (List Arrival))
        → let w1 : World = record w { arrivals = a } in
          Extends w.rows (arrive json w1).rows × ((arrive json w1).received ≡ w.received)
    go [] = (Extends-refl w.rows, refl)
    go (ps ∷ rest) = (collect_all-Extends json ps w.rows, refl)

-- A rowid belongs to one row.
pub mem-same :
    (rows : List MetricRow) (r s : MetricRow)
    → Distinct rows
    → Memᴰ r rows
    → Memᴰ s rows
    → r.rowid ≡ s.rowid
    → r ≡ s
mem-same [] r s d m n e = absurd (Memᴰ.not-nil m)
mem-same (x ∷ rows) r s (a, d) m n e = elim (Memᴰ.cases_cons m) [
  | inl p ↦ elim (Memᴰ.cases_cons n) [
    | inl q ↦ p ∙ sym q
    | inr n' ↦ absurd (All-mem _ rows s a n' (ap (λ (y : MetricRow). y.rowid) (sym p) ∙ e))
  ]
  | inr m' ↦ elim (Memᴰ.cases_cons n) [
    | inl q ↦ absurd (All-mem _ rows r a m' (ap (λ (y : MetricRow). y.rowid) (sym q) ∙ sym e))
    | inr n' ↦ mem-same rows r s d m' n' e
  ]
]

-- Marking keeps the rowids.
update_published-All :
    (P : ℕ → Type 0) (ids : List ℕ) (rows : List MetricRow)
    → All (λ (r : MetricRow). P r.rowid) rows
    → All (λ (r : MetricRow). P r.rowid) (update_published ids rows)
unfolding update_published
update_published-All P ids [] a = tt
update_published-All P ids (r ∷ rs) (p, a) = elim (Bool-cases (has_id r.rowid ids)) [
  | inl b ↦ rw (b) (p, update_published-All P ids rs a)
  | inr b ↦ rw (b) (p, update_published-All P ids rs a)
]

pub update_published-Distinct :
    (ids : List ℕ) (rows : List MetricRow) → Distinct rows → Distinct (update_published ids rows)
unfolding update_published
update_published-Distinct ids [] d = tt
update_published-Distinct ids (r ∷ rs) (a, d) = elim (Bool-cases (has_id r.rowid ids)) [
  | inl b ↦
      rw (b) (update_published-All (λ n. r.rowid ≢ n) ids rs a, update_published-Distinct ids rs d)
  | inr b ↦
      rw (b) (update_published-All (λ n. r.rowid ≢ n) ids rs a, update_published-Distinct ids rs d)
]

-- Marking keeps the rows of other rowids.
pub update_published-mem :
    (ids : List ℕ) (rows : List MetricRow) (r : MetricRow)
    → Memᴰ r rows
    → has_id r.rowid ids ≡ false
    → Memᴰ r (update_published ids rows)
unfolding update_published
update_published-mem ids [] r m h = absurd (Memᴰ.not-nil m)
update_published-mem ids (s ∷ rows) r m h = elim (Memᴰ.cases_cons m) [
  | inl e ↦ rw (sym (ap (λ (y : MetricRow). has_id y.rowid ids) e) ∙ h) (Memᴰ.head e)
  | inr t ↦ elim (Bool-cases (has_id s.rowid ids)) [
    | inl b ↦ rw (b) (Memᴰ.tail (update_published-mem ids rows r t h))
    | inr b ↦ rw (b) (Memᴰ.tail (update_published-mem ids rows r t h))
  ]
]

delete_old_rows-All :
    (P : MetricRow → Type 0) (threshold : ℤ) (rows : List MetricRow)
    → All P rows
    → All P (delete_old_rows threshold rows)
unfolding delete_old_rows
delete_old_rows-All P threshold [] a = tt
delete_old_rows-All P threshold (r ∷ rs) (p, a) =
    elim (Bool-cases (ltb_ℤ r.timestamp threshold && r.published)) [
      | inl b ↦ rw (b) (delete_old_rows-All P threshold rs a)
      | inr b ↦ rw (b) (p, delete_old_rows-All P threshold rs a)
    ]

pub delete_old_rows-Distinct :
    (threshold : ℤ) (rows : List MetricRow)
    → Distinct rows
    → Distinct (delete_old_rows threshold rows)
unfolding delete_old_rows
delete_old_rows-Distinct threshold [] d = tt
delete_old_rows-Distinct threshold (r ∷ rs) (a, d) =
    elim (Bool-cases (ltb_ℤ r.timestamp threshold && r.published)) [
      | inl b ↦ rw (b) (delete_old_rows-Distinct threshold rs d)
      | inr b ↦
          rw (b) (delete_old_rows-All _ threshold rs a, delete_old_rows-Distinct threshold rs d)
    ]

-- What is deleted was published.
pub delete_old_rows-mem :
    (threshold : ℤ) (rows : List MetricRow) (r : MetricRow)
    → Memᴰ r rows
    → r.published ≡ false
    → Memᴰ r (delete_old_rows threshold rows)
unfolding delete_old_rows
delete_old_rows-mem threshold [] r m h = absurd (Memᴰ.not-nil m)
delete_old_rows-mem threshold (s ∷ rows) r m h =
    elim (Bool-cases (ltb_ℤ s.timestamp threshold && s.published)) [
      | inl b ↦ rw (b) (elim (Memᴰ.cases_cons m) [
        | inl e ↦ absurd (
            clash (ltb_ℤ s.timestamp threshold) s.published b
              (ap (λ (y : MetricRow). y.published) (sym e) ∙ h))
        | inr t ↦ delete_old_rows-mem threshold rows r t h
      ])
      | inr b ↦ rw (b) (elim (Memᴰ.cases_cons m) [
        | inl e ↦ Memᴰ.head e
        | inr t ↦ Memᴰ.tail (delete_old_rows-mem threshold rows r t h)
      ])
    ]
  where
    clash : (x y : Bool) → (x && y) ≡ true → y ≡ false → ⊥
    clash x true p q = cc
    clash true false p q = cc
    clash false false p q = cc
