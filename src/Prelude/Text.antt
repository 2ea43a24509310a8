-- ===== src/Prelude/Text.antt =====
-- Python's text operations that the tools use. A text is a native `String` where it is only
-- compared, and the list of its code points where the program walks it.
pub mod Laws
use Prim.Native.Nat.{ℕ, zero, suc, ◌+◌, ◌-◌, ◌*◌}
use Prim.Native.Char.{code}
use Prim.Native.String.{String}
use mathlib.Core.Path.{◌≡◌, refl}
use mathlib.Core.Bool.{Bool, true, false, not, ◌&&◌, ◌||◌}
use mathlib.Core.List.{List, [], ◌∷◌, ◌++◌, reverse}
use mathlib.Core.Option.{Option, none, some}
use axoloty_embedded.Prelude.Tests.{ltb, leb, ◌==◌, if◌then◌else◌}
use axoloty_embedded.Prelude.Lists.{any, all, length}
use text.Mathlib.Text.{◌==◌ as str_eq}

-- No text stands in the list twice.
abbrev pub AreDistinct : List String → Type 0
AreDistinct [] = Unit {0}
AreDistinct (s ∷ ss) = (any (str_eq s) ss ≡ false) × AreDistinct ss

-- The code points of a text.
abbrev pub codes : String → List ℕ
codes String.[] = []
codes (String.◌∷◌ c s) = code c ∷ codes s

unfoldable pub codes_eq : List ℕ → List ℕ → Bool
codes_eq [] [] = true
codes_eq (x ∷ xs) (y ∷ ys) = x == y && codes_eq xs ys
codes_eq _ _ = false

-- `text[len(prefix):] if text.startswith(prefix) else None`
unfoldable pub after_prefix : List ℕ → List ℕ → Option (List ℕ)
after_prefix [] text = some text
after_prefix (p ∷ prefix) [] = none
after_prefix (p ∷ prefix) (c ∷ text) = if p == c then after_prefix prefix text else none

abbrev is_found : Option (List ℕ) → Bool
is_found none = false
is_found (some _) = true

unfoldable pub starts_with : List ℕ → List ℕ → Bool
unfolding after_prefix
starts_with prefix text = is_found (after_prefix prefix text)

unfoldable pub ends_with : List ℕ → List ℕ → Bool
unfolding starts_with
ends_with suffix text = starts_with (reverse suffix) (reverse text)

-- `part in text`
unfoldable pub contains_text : List ℕ → List ℕ → Bool
unfolding starts_with
contains_text part [] = starts_with part []
contains_text part (c ∷ text) = starts_with part (c ∷ text) || contains_text part text

-- `text.split(separator, 1)`: what stands before the first separator, and what stands behind it.
unfoldable pub split_once : ℕ → List ℕ → List ℕ × Option (List ℕ)
split_once separator [] = ([], none)
split_once separator (c ∷ text) =
    let (head, rest) = split_once separator text in
    if c == separator then ([], some text) else (c ∷ head, rest)

abbrev add_to_head : ℕ → List (List ℕ) → List (List ℕ)
add_to_head c [] = (c ∷ []) ∷ []
add_to_head c (part ∷ parts) = (c ∷ part) ∷ parts

-- `text.split(separator)`
unfoldable pub split_on : ℕ → List ℕ → List (List ℕ)
split_on separator [] = [] ∷ []
split_on separator (c ∷ text) =
    let parts = split_on separator text in
    if c == separator then [] ∷ parts else add_to_head c parts

-- `str.isspace` of one character, among the characters of Latin-1.
unfoldable pub is_space : ℕ → Bool
is_space c = (leb 9 c && leb c 13) || (leb 28 c && leb c 32) || c == 133 || c == 160

unfoldable pub strip_left : List ℕ → List ℕ
unfolding is_space
strip_left [] = []
strip_left (c ∷ text) = if is_space c then strip_left text else c ∷ text

unfoldable pub strip : List ℕ → List ℕ
unfolding strip_left
strip text = reverse (strip_left (reverse (strip_left text)))

-- `str.lower` on the ASCII letters.
unfoldable pub lower : List ℕ → List ℕ
lower [] = []
lower (c ∷ text) = (if leb 65 c && leb c 90 then c + 32 else c) ∷ lower text

-- `str.splitlines`. A carriage return and the line feed behind it are one break.
unfoldable pub is_line_break : ℕ → Bool
is_line_break c =
    (leb 10 c && leb c 13) || (leb 28 c && leb c 30) || c == 133 || c == 8232 || c == 8233

abbrev drop_line_feed : ℕ → List ℕ → Bool
drop_line_feed c [] = false
drop_line_feed c (d ∷ text) = c == 13 && d == 10

abbrev start_line : List (List ℕ) → List (List ℕ)
start_line lines = [] ∷ lines

-- The lines of a text, a last empty line included.
unfoldable pub split_breaks : List ℕ → List (List ℕ)
unfolding is_line_break
split_breaks [] = [] ∷ []
split_breaks (c ∷ text) =
    let lines = split_breaks text in
    if drop_line_feed c text
    then lines
    else if is_line_break c
    then start_line lines
    else add_to_head c lines

abbrev drop_last_empty : List (List ℕ) → List (List ℕ)
drop_last_empty [] = []
drop_last_empty ([] ∷ []) = []
drop_last_empty (line ∷ lines) = line ∷ drop_last_empty lines

unfoldable pub splitlines : List ℕ → List (List ℕ)
unfolding split_breaks
splitlines text = drop_last_empty (split_breaks text)

-- `re.fullmatch(r"[0-9a-f]{n}", text)`
unfoldable pub is_hex_digit : ℕ → Bool
is_hex_digit c = (leb 48 c && leb c 57) || (leb 97 c && leb c 102)

unfoldable pub is_hex : ℕ → List ℕ → Bool
unfolding is_hex_digit
is_hex n text = length text == n && all is_hex_digit text

split_run : split_on b',' (codes "a, b,,c") ≡ codes "a" ∷ codes " b" ∷ [] ∷ codes "c" ∷ []
unfolding split_on
split_run = refl

splitlines_run : splitlines (97 ∷ 13 ∷ 10 ∷ 10 ∷ 98 ∷ 10 ∷ []) ≡ codes "a" ∷ [] ∷ codes "b" ∷ []
unfolding splitlines
splitlines_run = refl

text_run :
    (strip (codes "  x y ") ≡ codes "x y")
    × (contains_text (codes "bss") (lower (codes ".dram0.BSS")) ≡ true)
    × (ends_with (codes ".o") (codes "App.o") ≡ true)
    × (split_once b'=' (codes "A=b=c") ≡ (codes "A", some (codes "b=c")))
unfolding strip contains_text lower ends_with split_once
text_run = (refl, refl, refl, refl)
