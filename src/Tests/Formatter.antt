-- ===== src/Tests/Formatter.antt =====
-- The properties of the formatter at concrete rows.
use go_tableland.Prelude.{ℕ, String, ◌≡◌, refl, some, List, [], ◌∷◌, map}
use go_tableland.Errors.{ok}
use go_tableland.Formatter.{bare, and_then, to_object, to_objects, extract}
use go_tableland.Formatter.Objects.{
  named, Different, get, to_object-get, singles, extract-to_objects,
}

two_columns : Different ("id" ∷ "name" ∷ [])
unfolding Different named
two_columns = (refl, (refl, tt))

to_object-get_example :
    (o : List (String × ℕ)) × (to_object ("id" ∷ "name" ∷ []) (1 ∷ 2 ∷ []) [] ≡ ok o)
    × (map (λ c. get c o) ("id" ∷ "name" ∷ []) ≡ map some (1 ∷ 2 ∷ []))
to_object-get_example = to_object-get ("id" ∷ "name" ∷ []) (1 ∷ 2 ∷ []) [] two_columns refl

extract-to_objects_example :
    and_then (λ e. e) (to_objects {V = ℕ} ("id" ∷ []) (singles (1 ∷ 2 ∷ []))) extract
    ≡ ok (bare 1 ∷ bare 2 ∷ [])
extract-to_objects_example = extract-to_objects "id" (1 ∷ 2 ∷ [])
