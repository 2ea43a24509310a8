-- ===== src/Json/Load/Unique.antt =====
-- What the hook `unique_object` guarantees.
use axoloty_embedded.Prelude.{
  ◌≡◌, refl, ◌∙◌, true, false, ◌||◌, String, str_eq, str_eq_iff, ap, arith,
}
use axoloty_embedded.Json.Value.{
  Json, null, bool, int, float, str, arr, obj, Items, nil, cons, Fields, end, field,
}
use axoloty_embedded.Json.Access.{has_key}
use axoloty_embedded.Json.Load.{
  put, unique_object, load_unique, load_unique_items, load_unique_fields, keys_distinct, well_keyed,
  well_keyed_items, well_keyed_fields,
}
use axoloty_embedded.Outcome.{ok, >>=-eq-ok}

-- The pairs of one dictionary and those behind them.
append_fields : Fields → Fields → Fields
append_fields end gs = gs
append_fields (field k v fs) gs = field k v (append_fields fs gs)

put_fresh :
    (k : String) (v : Json) (fs gs : Fields)
    → has_key k fs ≡ false
    → append_fields (put k v fs) gs ≡ append_fields fs (field k v gs)
unfolding put has_key append_fields
put_fresh k v end gs h = refl
put_fresh k v (field j w fs) gs h = ground (arith, put_fresh k v fs gs)

append_fields-end : (fs : Fields) → append_fields fs end ≡ fs
unfolding append_fields
append_fields-end end = refl
append_fields-end (field k v fs) = ap (field k v) (append_fields-end fs)

unique_object-same :
    (value pairs r : Fields) → unique_object value pairs ≡ ok r → append_fields value pairs ≡ r
unfolding unique_object
unique_object-same value end r h = append_fields-end value ∙ (cc)
unique_object-same value (field k v pairs) r h =
    ground (arith, unique_object-same (put k v value) pairs r, put_fresh k v value pairs)

has_key-put :
    (j k : String) (v : Json) (fs : Fields) → has_key j (put k v fs) ≡ (str_eq k j || has_key j fs)
unfolding has_key put
has_key-put j k v end = ground arith
has_key-put j k v (field i w fs) =
    ground (arith, has_key-put j k v fs, str_eq_iff i k, str_eq_iff k j, str_eq_iff i j)

keys_distinct-put :
    (k : String) (v : Json) (fs : Fields)
    → has_key k fs ≡ false
    → keys_distinct fs ≡ true
    → keys_distinct (put k v fs) ≡ true
unfolding keys_distinct has_key put
keys_distinct-put k v end h d = refl
keys_distinct-put k v (field i w fs) h d =
    ground (arith, keys_distinct-put k v fs, has_key-put i k v fs, str_eq_iff i k, str_eq_iff k i)

unique_object-distinct :
    (value pairs r : Fields)
    → keys_distinct value ≡ true
    → unique_object value pairs ≡ ok r
    → keys_distinct r ≡ true
unfolding unique_object
unique_object-distinct value end r d h = ground arith
unique_object-distinct value (field k v pairs) r d h =
    ground (arith, unique_object-distinct (put k v value) pairs r, keys_distinct-put k v value)

mutual
  unfolding load_unique well_keyed append_fields

  load_unique_sound : (v w : Json) → load_unique v ≡ ok w → (v ≡ w) × (well_keyed w ≡ true)
  load_unique_sound null w h = ground arith
  load_unique_sound (bool b) w h = ground arith
  load_unique_sound (int n) w h = ground arith
  load_unique_sound (float b) w h = ground arith
  load_unique_sound (str s) w h = ground arith
  load_unique_sound (arr xs) w h =
      let (ys, e, f) = >>=-eq-ok (load_unique_items xs) _ h in
      let (p, q) = load_unique_items_sound xs ys e in ground arith
  load_unique_sound (obj fs) w h =
      let (gs, e, f) = >>=-eq-ok (load_unique_fields fs) _ h in
      let (hs, g, k) = >>=-eq-ok (unique_object end gs) _ f in
      let (p, q) = load_unique_fields_sound fs gs e in
      ground (arith, unique_object-same end gs hs g, unique_object-distinct end gs hs refl g)

  load_unique_items_sound :
      (xs ys : Items) → load_unique_items xs ≡ ok ys → (xs ≡ ys) × (well_keyed_items ys ≡ true)
  load_unique_items_sound nil ys h = ground arith
  load_unique_items_sound (cons x xs) ys h =
      let (y, e, f) = >>=-eq-ok (load_unique x) _ h in
      let (zs, g, k) = >>=-eq-ok (load_unique_items xs) _ f in
      let (p, q) = load_unique_sound x y e in
      let (r, s) = load_unique_items_sound xs zs g in ground arith

  load_unique_fields_sound :
      (fs gs : Fields) → load_unique_fields fs ≡ ok gs → (fs ≡ gs) × (well_keyed_fields gs ≡ true)
  load_unique_fields_sound end gs h = ground arith
  load_unique_fields_sound (field k v fs) gs h =
      let (w, e, f) = >>=-eq-ok (load_unique v) _ h in
      let (hs, g, l) = >>=-eq-ok (load_unique_fields fs) _ f in
      let (p, q) = load_unique_sound v w e in
      let (r, s) = load_unique_fields_sound fs hs g in ground arith

-- A document that loads with the hook is the one that the text holds, pair for pair, and none of
-- its objects, at any depth, repeats a key.
pub load_unique_lem : (v w : Json) → load_unique v ≡ ok w → (v ≡ w) × (well_keyed w ≡ true)
load_unique_lem v w h = load_unique_sound v w h
