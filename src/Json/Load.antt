-- ===== src/Json/Load.antt =====
-- From the pairs of a JSON text to Python dictionaries: `json.loads` alone, and with the
-- `object_pairs_hook` `unique_object` of Tools/EmbeddedApplicationMacros/static_storage_policy.py
-- (the same hook stands in linked_storage_audit.py). A parsed text is a `Json` whose objects still
-- hold every pair; the result holds each key once.
pub mod Unique
mod Samples
use axoloty_embedded.Prelude.{
  ◌≡◌, refl, Bool, true, false, ◌&&◌, ◌||◌, not, String, str_eq, Option, none, some, if◌then◌else◌,
  ap, &&_both, both_&&, Bool-cases, arith, inl, inr,
}
use axoloty_embedded.Json.Value.{
  Json, null, bool, int, float, str, arr, obj, Items, nil, cons, Fields, end, field,
}
use axoloty_embedded.Json.Equality.{get}
use axoloty_embedded.Json.Access.{has_key}
use axoloty_embedded.Outcome.{Outcome, ok, raised, rejected, reject_if, ◌>>=◌, ◌>>◌}

-- `value[key] = item`
unfoldable pub put : String → Json → Fields → Fields
put k v end = field k v end
put k v (field j w fs) = if str_eq j k then field j v fs else field j w (put k v fs)

-- The hook: it raises at the first key that it has met before.
unfoldable pub unique_object : Fields → Fields → Outcome Fields
unfolding has_key put
unique_object value end = ok value
unique_object value (field key item pairs) =
    let rest = unique_object (put key item value) pairs in
    if has_key key value then raised (rejected "duplicate JSON key %r") else rest

-- `json.loads(text, object_pairs_hook=unique_object)`: inner objects come first.
unfoldable mutual
  unfolding unique_object

  pub load_unique : Json → Outcome Json
  load_unique (arr xs) = do ys ← load_unique_items xs; ok (arr ys)
  load_unique (obj fs) = do gs ← load_unique_fields fs; hs ← unique_object end gs; ok (obj hs)
  load_unique v = ok v

  pub load_unique_items : Items → Outcome Items
  load_unique_items nil = ok nil
  load_unique_items (cons x xs) = do y ← load_unique x; ys ← load_unique_items xs; ok (cons y ys)

  pub load_unique_fields : Fields → Outcome Fields
  load_unique_fields end = ok end
  load_unique_fields (field k v fs) = do
    w ← load_unique v
    gs ← load_unique_fields fs
    ok (field k w gs)

-- Without a hook the last pair of a key wins.
unfoldable pub last_wins : Fields → Fields → Fields
unfolding put
last_wins value end = value
last_wins value (field key item pairs) = last_wins (put key item value) pairs

unfoldable mutual
  unfolding last_wins

  pub load_plain : Json → Json
  load_plain (arr xs) = arr (load_plain_items xs)
  load_plain (obj fs) = obj (last_wins end (load_plain_fields fs))
  load_plain v = v

  pub load_plain_items : Items → Items
  load_plain_items nil = nil
  load_plain_items (cons x xs) = cons (load_plain x) (load_plain_items xs)

  pub load_plain_fields : Fields → Fields
  load_plain_fields end = end
  load_plain_fields (field k v fs) = field k (load_plain v) (load_plain_fields fs)

-- The specification: no object repeats a key.
unfoldable pub keys_distinct : Fields → Bool
unfolding has_key
keys_distinct end = true
keys_distinct (field k v fs) = not (has_key k fs) && keys_distinct fs

unfoldable mutual
  unfolding keys_distinct

  pub well_keyed : Json → Bool
  well_keyed (arr xs) = well_keyed_items xs
  well_keyed (obj fs) = keys_distinct fs && well_keyed_fields fs
  well_keyed v = true

  pub well_keyed_items : Items → Bool
  well_keyed_items nil = true
  well_keyed_items (cons x xs) = well_keyed x && well_keyed_items xs

  pub well_keyed_fields : Fields → Bool
  well_keyed_fields end = true
  well_keyed_fields (field k v fs) = well_keyed v && well_keyed_fields fs
