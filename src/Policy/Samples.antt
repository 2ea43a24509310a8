-- ===== src/Policy/Samples.antt =====
-- The policy on two small images.
use axoloty_embedded.Prelude.{◌≡◌, refl, String, Option, none, some, str_eq, if◌then◌else◌}
use axoloty_embedded.Json.Load.{load_unique}
use axoloty_embedded.Prelude.Int.{pos}
use axoloty_embedded.Host.{Host, Read, text}
use axoloty_embedded.Policy.Correct.{IsConfigured, classify-IsConfigured, classify-c_only}
use axoloty_embedded.Json.{Json, obj, field, str, int, end}
use axoloty_embedded.Policy.{classify, ok, raised, swift_configured, c_only, rejected}

abbrev manifest_document : Json
manifest_document = obj (
    field "name" (str "sensor")
      (field "capacities" (obj (field "applicationStaticStorageBytes" (int (pos 4096)) end)) end))

abbrev inventory_document : Json
inventory_document = obj (
    field "schemaVersion" (int (pos 1))
      (field "app" (str "sensor") (field "expectedMapMember" (str "Sensor.o") end)))

-- A file's text is its path, and a parsed document is found by its text.
abbrev reads : String → Read
reads path =
    if str_eq path "cache"
    then text "AXOLOTY_QUALIFICATION_CARRIER_SCENARIO:BOOL=OFF\n"
    else if str_eq path "carrier"
    then text
        "AXOLOTY_QUALIFICATION_CARRIER_SCENARIO:BOOL=ON\nAXOLOTY_TRANSPORT_DIR:PATH=/w/zenoh-pico"
    else text path

abbrev parses : String → Option Json
parses contents =
    if str_eq contents "app.json"
    then some manifest_document
    else if str_eq contents "inventory.json"
    then some inventory_document
    else none

abbrev machine : Host
machine = record { read_text = reads; parse_json = parses }

abbrev broken_machine : Host
broken_machine = record { read_text = reads; parse_json = λ contents. none }

sensor_run : classify machine "cache" "app.json" "inventory.json" ≡ ok (swift_configured "Sensor.o")
unfolding classify load_unique
sensor_run = refl

carrier_run : classify machine "carrier" "app.json" "inventory.json" ≡ ok c_only
unfolding classify
carrier_run = refl

broken_run :
    classify broken_machine "cache" "app.json" "inventory.json"
    ≡ raised (rejected "cannot read %s %s: %s")
unfolding classify
broken_run = refl

classify-IsConfigured_example : IsConfigured machine "app.json" "inventory.json" "Sensor.o"
classify-IsConfigured_example =
    classify-IsConfigured machine "cache" "app.json" "inventory.json" "Sensor.o" sensor_run

classify-c_only_example : classify broken_machine "carrier" "a" "b" ≡ ok c_only
classify-c_only_example =
    classify-c_only machine broken_machine "carrier" "app.json" "inventory.json" "a" "b" refl
      carrier_run
