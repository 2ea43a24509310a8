-- ===== src/Stack/Samples.antt =====
-- A small ROM contract, and a function of one instruction.
use axoloty_embedded.Prelude.{◌≡◌, refl, All, List, any, none, ◌∷◌, [], some, map, true, arith}
use axoloty_embedded.Prelude.Int.{pos}
use axoloty_embedded.Outcome.{ok}
use axoloty_embedded.Json.{
  obj, Fields, field, int, has_key, str, get, get_or_null, arr, cons, end, nil,
}
use axoloty_embedded.Stack.Contracts.{
  validate_rom_contract, json_object, IsUsable, records_in, check_each,
  validate_rom_contract-IsUsable, check_rom_record, parse_address, address_in_range,
}
use axoloty_embedded.Stack.Operands.{parse_int}
use axoloty_embedded.Stack.Linked.{
  check_function, Encoded, Executable, check_listing, lies_in, bytes_match, tiles,
  check_function-covers,
}
use axoloty_embedded.Stack.Instruction.{Instruction, Function}

abbrev rom_document : Fields
rom_document = field "schemaVersion" (int (pos 1)) (
    field "idfVersion" (str "5.4.0") (
      field "target" (str "esp32c6") (
        field "records"
          (arr (
            cons (obj (field "address" (str "0x40000010") (field "stackBytes" (int (pos 16)) end)))
              nil))
          end)))

rom_run : validate_rom_contract (obj rom_document) ≡ ok rom_document
unfolding validate_rom_contract json_object has_key get get_or_null check_each check_rom_record
    parse_address address_in_range parse_int
rom_run = refl

validate_rom_contract-IsUsable_example :
    (obj rom_document ≡ obj rom_document)
    × All IsUsable (records_in (get_or_null "records" rom_document))
validate_rom_contract-IsUsable_example =
    validate_rom_contract-IsUsable (obj rom_document) rom_document rom_run

abbrev one_instruction : Instruction
one_instruction = record { address = 64; mnemonic = "ret"; operands = ""; target = none; size = 4 }

abbrev one_function : Function
one_function = record { name = "f"; start = 64; size = 4; instructions = one_instruction ∷ [] }

abbrev one_listing : List Encoded
one_listing = record { ins = one_instruction; encoding = some (7 ∷ 7 ∷ 7 ∷ 7 ∷ []) } ∷ []

abbrev one_image : List Executable
one_image = record { first = 0; last = 100; contents = λ n. 7 } ∷ []

function_run : check_function one_image 4 one_function one_listing ≡ ok tt
unfolding check_function check_listing bytes_match tiles axoloty_embedded.Prelude.sort_by
function_run = refl

check_function-covers_example : any (lies_in 66) (map (λ e. e.ins) one_listing) ≡ true
check_function-covers_example =
    check_function-covers one_image 4 one_function one_listing function_run 66 (ground arith)
      (ground arith)
