-- ===== src/Interval/Offset.antt =====
-- The memory operand that Tools/EmbeddedApplicationMacros/initialization_interval.py matches by a
-- regular expression.
use axoloty_embedded.Prelude.{
  ℕ, zero, suc, ◌+◌, ◌-◌, ◌*◌, ◌≡◌, refl, Bool, true, false, ◌&&◌, Option, none, some, [], ◌∷◌,
  if◌then◌else◌, leb, ◌==◌,
}
use axoloty_embedded.Prelude.Int.{ℤ, pos, negsuc}
use axoloty_embedded.Prelude.Text.{codes}
use axoloty_embedded.Stack.Operands.{Text}

abbrev is_digit : ℕ → Bool
is_digit c = leb 48 c && leb c 57

decimal : ℕ → Text → ℕ × Text
decimal n [] = (n, [])
decimal n (c ∷ text) =
    let more = decimal (n * 10 + (c - 48)) text in if is_digit c then more else (n, c ∷ text)

-- `\d+`: the number, and what stands behind it.
number : Text → Option (ℕ × Text)
unfolding decimal
number [] = none
number (c ∷ text) = if is_digit c then some (decimal (c - 48) text) else none

only_bracket : Text → Bool
only_bracket (c ∷ []) = c == b')'
only_bracket _ = false

all_but_last : Text → Text
all_but_last [] = []
all_but_last (c ∷ []) = []
all_but_last (c ∷ text) = c ∷ all_but_last text

-- `\((x\d+)\)` to the end: the name.
bracketed : Text → Option Text
unfolding number only_bracket all_but_last
bracketed (open_bracket ∷ x ∷ text) =
    if open_bracket == b'(' && x == b'x'
    then elim (number text) [
      | none ↦ none
      | some found ↦ if only_bracket found.1 then some (x ∷ all_but_last text) else none
    ]
    else none
bracketed _ = none

abbrev offset_of : Bool → ℕ → ℤ
offset_of negative zero = pos 0
offset_of negative (suc n) = if negative then negsuc n else pos (suc n)

offset_and_name : Bool → Text → Option (ℤ × Text)
unfolding number bracketed
offset_and_name negative text = elim (number text) [
  | none ↦ none
  | some found ↦ elim (bracketed found.1) [
    | none ↦ none
    | some name ↦ some (offset_of negative found.0, name)
  ]
]

-- `re.fullmatch(r'(-?\d+)\((x\d+)\)', text)`
unfoldable pub offset_match : Text → Option (ℤ × Text)
unfolding offset_and_name
offset_match [] = none
offset_match (c ∷ text) =
    if c == b'-' then offset_and_name true text else offset_and_name false (c ∷ text)

offset_run :
    (offset_match (codes "-12(x2)") ≡ some (negsuc 11, codes "x2"))
    × (offset_match (codes "8(sp)") ≡ none)
    × (offset_match (codes "0(x10") ≡ none)
unfolding offset_match
offset_run = (refl, refl, refl)
