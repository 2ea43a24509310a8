-- ===== src/Json/Load/Samples.antt =====
-- Loading a nested document, and one that repeats a key inside an array.
use axoloty_embedded.Prelude.{◌≡◌, refl, true}
use axoloty_embedded.Prelude.Int.{pos}
use axoloty_embedded.Json.Load.{load_plain, well_keyed, load_unique, ok, raised, rejected}
use axoloty_embedded.Json.{Json, obj, arr, field, cons, null, int, end, nil}
use axoloty_embedded.Json.Load.Unique.{load_unique_lem}

abbrev nested : Json
nested = obj (field "a" (arr (cons (obj (field "a" null end)) nil)) (field "b" (int (pos 1)) end))

abbrev repeated : Json
repeated = arr (cons (obj (field "a" null (field "a" (int (pos 1)) end))) nil)

nested_run : load_unique nested ≡ ok nested
unfolding load_unique
nested_run = refl

repeated_run : load_unique repeated ≡ raised (rejected "duplicate JSON key %r")
unfolding load_unique
repeated_run = refl

last_run : load_plain repeated ≡ arr (cons (obj (field "a" (int (pos 1)) end)) nil)
unfolding load_plain
last_run = refl

load_unique_lem_example : (nested ≡ nested) × (well_keyed nested ≡ true)
load_unique_lem_example = load_unique_lem nested nested nested_run
