-- ===== src/Orders/Dict.antt =====
-- Python dicts from ids to numbers, in insertion order, as the order services build them.
use munavvar_a.Prelude.{ℕ, ◌+◌, ◌==◌, Option, none, some, List, [], ◌∷◌, if◌then◌else◌}
use munavvar_a.Store.{Line}

-- `d.get(k, 0)`
unfoldable pub get_or_zero : ℕ → List Line → ℕ
get_or_zero k [] = 0
get_or_zero k (e ∷ d) = if e.product_id == k then e.quantity else get_or_zero k d

-- `d[k] = v`
unfoldable pub set_key : ℕ → ℕ → List Line → List Line
set_key k v [] = record { product_id = k; quantity = v } ∷ []
set_key k v (e ∷ d) =
    if e.product_id == k then record { product_id = k; quantity = v } ∷ d else e ∷ set_key k v d

-- `d[k] = d.get(k, 0) + v`
unfoldable pub add_key : ℕ → ℕ → List Line → List Line
add_key k v d = set_key k (get_or_zero k d + v) d

-- `{i.product_id: i.quantity for i in lines}[k]`: the last line of a product wins.
unfoldable pub last_quantity : ℕ → List Line → Option ℕ
last_quantity k [] = none
last_quantity k (l ∷ ls) = elim (last_quantity k ls) [
  | some q ↦ some q
  | none ↦ if l.product_id == k then some l.quantity else none
]
