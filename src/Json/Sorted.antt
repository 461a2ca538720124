-- ===== src/Json/Sorted.antt =====
-- `json.dumps` with `sort_keys=True` and `json.loads` behind it: the value that comes back has the keys
-- of its objects in ascending order, at every depth.
use peer_q.Prelude.{ℕ, ◌≡◌, refl, Str, [], ◌∷◌, if◌then◌else◌, less, arith, str_ordered}
use peer_q.Prelude.Int.{pos}
use peer_q.Prelude.Dict.{Dict}
use peer_q.Prelude.Sorted.{insert_item, sorted_items}
use peer_q.Json.{Json, arr, obj, int, Items, nil, cons, Fields, end, field}
use peer_q.Consensus.Wire.{clock_fields}

unfoldable pub insert_field : Str → Json → Fields → Fields
insert_field key value end = field key value end
insert_field key value (field k v rest) =
    let later = insert_field key value rest in
    if less key k then field key value (field k v rest) else field k v later

unfoldable mutual
  pub sort_keys : Json → Json
  sort_keys (arr xs) = arr (sort_items xs)
  sort_keys (obj fs) = obj (sort_fields fs)
  sort_keys j = j

  pub sort_items : Items → Items
  sort_items nil = nil
  sort_items (cons x xs) = cons (sort_keys x) (sort_items xs)

  pub sort_fields : Fields → Fields
  sort_fields end = end
  sort_fields (field k v rest) = insert_field k (sort_keys v) (sort_fields rest)

insert_field-clock_fields :
    (k : Str) (n : ℕ) (d : Dict Str ℕ)
    → insert_field k (int (pos n)) (clock_fields d) ≡ clock_fields (insert_item (k, n) d)
unfolding insert_field insert_item clock_fields
insert_field-clock_fields k n [] = refl
insert_field-clock_fields k n ((j, m) ∷ d) = ground (arith, insert_field-clock_fields k n d)

pub sort_fields-clock_fields :
    (d : Dict Str ℕ) → sort_fields (clock_fields d) ≡ clock_fields (sorted_items d)
unfolding sort_fields sorted_items clock_fields
sort_fields-clock_fields [] = refl
sort_fields-clock_fields ((k, n) ∷ d) =
    rw (sort_fields-clock_fields d) (insert_field-clock_fields k n (sorted_items d))
