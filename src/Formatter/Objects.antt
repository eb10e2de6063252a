-- ===== src/Formatter/Objects.antt =====
-- About the objects that internal/formatter/formatter.go makes of rows.
use go_tableland.Prelude.{
  String, ◌≡◌, refl, sym, ap, ◌∙◌, ◌≢◌, inl, inr, Bool, true, false, ◌||◌, Option, none, some, List,
  [], ◌∷◌, map, arith, eq_refl, str_eq, if◌then◌else◌, Bool-cases, str_eq_sound, length,
}
use go_tableland.Errors.{Result, ok, err, panic, ok_injective}
use go_tableland.Formatter.{
  Item, object, bare, and_then, put, to_object, to_objects, extract_item, extract,
}

unfoldable pub named : String → List String → Bool
named c [] = false
named c (d ∷ ds) = str_eq d c || named c ds

-- No column name stands twice.
unfoldable pub Different : List String → Type 0
unfolding named
Different [] = Unit
Different (c ∷ cs) = (named c cs ≡ false) × Different cs

or_false : (a b : Bool) → (a || b) ≡ false → (a ≡ false) × (b ≡ false)
or_false true b h = absurd (cc)
or_false false b h = (refl, h)

true-ne-false : true ≢ false
true-ne-false h = cc

module _ {V : Type 0} where
  -- The value of a name.
  unfoldable pub get : String → List (String × V) → Option V
  get c [] = none
  get c ((k, v) ∷ rest) = if str_eq k c then some v else get c rest

  get-put : (c : String) (v : V) (o : List (String × V)) → get c (put c v o) ≡ some v
  unfolding get put
  get-put c v [] = rw (eq_refl c) refl
  get-put c v ((k, u) ∷ rest) = elim (Bool-cases (str_eq k c)) [
    | inl s ↦ rw (s) (rw (eq_refl c) refl)
    | inr s ↦ rw (s) (rw (s) (get-put c v rest))
  ]

  get-put-other :
      (c d : String) (v : V) (o : List (String × V))
      → str_eq d c ≡ false
      → get c (put d v o) ≡ get c o
  unfolding get put
  get-put-other c d v [] n = rw (n) refl
  get-put-other c d v ((k, u) ∷ rest) n = elim (Bool-cases (str_eq k d)) [
    | inl s ↦ rw (s) (rw (n) (rw (ap (λ x. str_eq x c) (str_eq_sound k d s) ∙ n) refl))
    | inr s ↦ rw (s) (ap (λ x. if str_eq k c then some u else x) (get-put-other c d v rest n))
  ]

  -- A name that is not among the rest of the columns keeps its value.
  get-to_object :
      (c : String) (names : List String) (row : List V) (acc o : List (String × V))
      → named c names ≡ false
      → to_object names row acc ≡ ok o
      → get c o ≡ get c acc
  unfolding to_object named
  get-to_object c names [] acc o n h = ap (get c) (ok_injective (sym h))
  get-to_object c [] (v ∷ vs) acc o n h = cc
  get-to_object c (d ∷ names) (v ∷ vs) acc o n h =
      let (here, rest) = or_false (str_eq d c) (named c names) n in
      get-to_object c names vs (put d v acc) o rest h ∙ get-put-other c d v acc here

  -- If the column names differ and a row has as many values as there are columns, the row becomes
  -- an object, whatever entries it is added to, in which the columns' names have, in order, the
  -- values of the row.
  pub to_object-get :
      (names : List String) (row : List V) (acc : List (String × V))
      → Different names
      → length names ≡ length row
      → (o : List (String × V)) × (to_object names row acc ≡ ok o)
        × (map (λ c. get c o) names ≡ map some row)
  unfolding to_object Different
  to_object-get [] [] acc d l = (acc, refl, refl)
  to_object-get (c ∷ names) [] acc d l = absurd (omega arith)
  to_object-get [] (v ∷ vs) acc d l = absurd (omega arith)
  to_object-get (c ∷ names) (v ∷ vs) acc (new, d) l =
      let (o, h, rest) = to_object-get names vs (put c v acc) d (omega arith) in
      let first : get c o ≡ some v =
        get-to_object c names vs (put c v acc) o new h ∙ get-put c v acc in
      (o, h, ap (λ x. x ∷ map (λ c. get c o) names) first ∙ ap (λ x. some v ∷ x) rest)

  -- Rows of one column.
  abbrev pub singles : List V → List (List V)
  singles [] = []
  singles (v ∷ vs) = (v ∷ []) ∷ singles vs

  -- For rows of one column, the extraction of the objects made of them gives the values of the
  -- rows, in order, without an error.
  pub extract-to_objects :
      (c : String) (values : List V)
      → and_then (λ e. e) (to_objects (c ∷ []) (singles values)) extract ≡ ok (map bare values)
  unfolding to_objects to_object and_then extract extract_item put
  extract-to_objects c [] = refl
  extract-to_objects c (v ∷ vs) = go (to_objects (c ∷ []) (singles vs)) (extract-to_objects c vs)
    where
      go :
          (r : Result (List (Item V)))
          → and_then (λ e. e) r extract ≡ ok (map bare vs)
          → and_then
              (λ e. e)
              (and_then (λ e. e) r (λ rest. ok (object ((c, v) ∷ []) ∷ rest)))
              extract
            ≡ ok (bare v ∷ map bare vs)
      go (ok is) h = rw (h) refl
      go (err e) h = cc
      go (panic s) h = cc
