-- ===== src/Json/Reading/Order.antt =====
-- Appending entries to a map in the order of their keys, as rapid_read_handler does.
use sofa_db.Prelude.{◌≡◌, refl, ap, true, none, arith}
use sofa_db.Text.{Bytes, bytes_lt}
use sofa_db.Text.Order.{bytes_eq_iff, bytes_lt_irrefl, bytes_lt_asymm}
use sofa_db.Json.Value.{JsonValue, Items, Fields, no_items, item, no_fields, field}
use sofa_db.Json.Containers.{push_back, find_field, insert_field}
use sofa_db.Json.Containers.Laws.{AllAbove}

unfoldable pub append_items : Items → Items → Items
append_items no_items l = l
append_items (item v k) l = item v (append_items k l)

unfoldable pub append_fields : Fields → Fields → Fields
append_fields no_fields m = m
append_fields (field k v n) m = field k v (append_fields n m)

pub append_items-nil : (l : Items) → append_items l no_items ≡ l
unfolding append_items
append_items-nil no_items = refl
append_items-nil (item v l) = ap (item v) (append_items-nil l)

pub append_fields-nil : (m : Fields) → append_fields m no_fields ≡ m
unfolding append_fields
append_fields-nil no_fields = refl
append_fields-nil (field k v m) = ap (field k v) (append_fields-nil m)

pub append_items-push_back :
    (k : Items) (v : JsonValue) (l : Items)
    → append_items (push_back k v) l ≡ append_items k (item v l)
unfolding append_items push_back
append_items-push_back no_items v l = refl
append_items-push_back (item u k) v l = ap (item u) (append_items-push_back k v l)

-- Every key of a map lies below a key.
abbrev pub AllBelow : Fields → Bytes → Type 0
AllBelow no_fields k = Unit {0}
AllBelow (field j v m) k = (bytes_lt j k ≡ true) × AllBelow m k

-- Every key of the first map lies below every key of the second.
abbrev pub Precedes : Fields → Fields → Type 0
Precedes acc no_fields = Unit {0}
Precedes acc (field k v m) = AllBelow acc k × Precedes acc m

pub find_field-AllBelow : (k : Bytes) (m : Fields) → AllBelow m k → find_field k m ≡ none
unfolding find_field
find_field-AllBelow k no_fields h = refl
find_field-AllBelow k (field j v m) h =
    ground (arith, find_field-AllBelow k m h.1, bytes_eq_iff j k, bytes_lt_irrefl k)

pub append_fields-insert_field :
    (k : Bytes) (v : JsonValue) (acc m : Fields)
    → AllBelow acc k
    → append_fields (insert_field k v acc) m ≡ append_fields acc (field k v m)
unfolding append_fields insert_field
append_fields-insert_field k v no_fields m h = refl
append_fields-insert_field k v (field j u acc) m h =
    ground (arith, append_fields-insert_field k v acc m h.1, bytes_lt_asymm j k)

AllBelow-insert_field :
    (k i : Bytes) (v : JsonValue) (acc : Fields)
    → AllBelow acc i
    → bytes_lt k i ≡ true
    → AllBelow (insert_field k v acc) i
unfolding insert_field
AllBelow-insert_field k i v no_fields h b = (b, tt)
AllBelow-insert_field k i v (field j u acc) h b =
    ground (arith, AllBelow-insert_field k i v acc h.1)

pub Precedes-insert_field :
    (k : Bytes) (v : JsonValue) (acc m : Fields)
    → AllAbove k m
    → Precedes acc m
    → Precedes (insert_field k v acc) m
Precedes-insert_field k v acc no_fields a h = tt
Precedes-insert_field k v acc (field j u m) a h =
    (AllBelow-insert_field k j v acc h.0 a.0, Precedes-insert_field k v acc m a.1 h.1)

pub Precedes-nil : (m : Fields) → Precedes no_fields m
Precedes-nil no_fields = tt
Precedes-nil (field k v m) = (tt, Precedes-nil m)
