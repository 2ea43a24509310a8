-- ===== src/Host.antt =====
-- What the tools take from the machine that they run on: the files, and a parser of JSON texts.
-- Neither is code of this repository, so both are parameters.
use axoloty_embedded.Prelude.{ℕ, ◌≡◌, refl, not, ◌&&◌, String, Option, List, [], ◌∷◌, select}
use axoloty_embedded.Prelude.Text.{codes, codes_eq, split_on}
use axoloty_embedded.Json.{Json}

-- `path.read_text(encoding="utf-8")`: the text, an OSError, or a UnicodeDecodeError.
pub data Read : Type 0 where
  text : String → Read
  os_error undecodable : Read

pub record Host : Type 0 where
  pub read_text : String → Read
  -- the document with every pair of its objects, or a JSONDecodeError
  pub parse_json : String → Option Json

abbrev pub slash : ℕ
slash = 47

-- The parts of a `PurePosixPath`: empty parts and single dots fall away.
unfoldable pub path_parts : List ℕ → List (List ℕ)
unfolding split_on codes_eq
path_parts path =
    select (λ part. not (codes_eq part []) && not (codes_eq part (codes "."))) (split_on slash path)

abbrev last_or_empty : List (List ℕ) → List ℕ
last_or_empty [] = []
last_or_empty (part ∷ []) = part
last_or_empty (part ∷ parts) = last_or_empty parts

-- `Path(path).name`
unfoldable pub path_name : List ℕ → List ℕ
unfolding path_parts
path_name path = last_or_empty (path_parts path)

path_name_run : path_name (codes "/w/Transports/zenoh-pico/./") ≡ codes "zenoh-pico"
unfolding path_name
path_name_run = refl
