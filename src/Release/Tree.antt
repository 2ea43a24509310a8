-- ===== src/Release/Tree.antt =====
-- What Tools/validate-release-manifest.py takes from the machine, `load`, and the tests on values
-- that its checks share.
use axoloty_embedded.Prelude.{
  ℕ, Bool, false, not, ◌||◌, String, Option, none, some, List, [], ◌∷◌, ◌++◌, All, refl, arith,
  if◌then◌else◌, ◌==◌, ◌≡◌, Bool-cases, inl, inr,
}
use axoloty_embedded.Prelude.Text.{codes, codes_eq, strip, ends_with}
use axoloty_embedded.Json.{is_hashable, Json, Fields, str, get, obj, one_of, get_or_null, null}
use axoloty_embedded.Outcome.{Outcome, raised, value_error, ok, type_error, ok-eq}
use axoloty_embedded.Host.{Read, text, os_error, undecodable}
use axoloty_embedded.Json.Load.{load_plain}

abbrev pub Text : Type 0
Text = List ℕ

-- The files of the repository and Python's `str` of a value that is no text: parameters.
pub record Tree : Type 0 where
  pub read_text : Text → Read
  pub parse_json : String → Option Json
  pub is_file : Text → Bool
  pub is_dir : Text → Bool
  -- `sorted(os.listdir(…))` of docs/evidence
  pub evidence_names : List String
  pub display : Json → Text

abbrev parsed : Option Json → Outcome Json
parsed none = raised value_error
parsed (some document) = ok (load_plain document)

abbrev read_and_parse : Tree → Read → Outcome Json
read_and_parse tree (text contents) = parsed (tree.parse_json contents)
read_and_parse tree os_error = raised value_error
read_and_parse tree undecodable = raised value_error

-- `load`: every failure is a ValueError, which `main` reports.
unfoldable pub load : Tree → Text → Outcome Json
load tree path = read_and_parse tree (tree.read_text path)

-- `str(value)`
abbrev pub shown : Tree → Json → Text
shown tree (str s) = codes s
shown tree v = tree.display v

-- `entry.get(key, "")`
abbrev pub or_empty : Option Json → Json
or_empty none = str ""
or_empty (some v) = v

abbrev pub shown_at : Tree → String → Fields → Text
shown_at tree key fs = shown tree (or_empty (get key fs))

-- `is_nonempty_string`
unfoldable pub is_nonempty_string : Json → Bool
unfolding codes_eq strip
is_nonempty_string (str s) = not (codes_eq (strip (codes s)) [])
is_nonempty_string _ = false

-- `value.get(key) if isinstance(value, dict) else None`
abbrev pub field_of : String → Json → Json
field_of key (obj fs) = get_or_null key fs
field_of key _ = null

-- `value in {…}`, which hashes the value first.
unfoldable pub in_set : Json → List Json → Outcome Bool
unfolding is_hashable one_of
in_set v vs = if is_hashable v then ok (one_of v vs) else raised type_error

-- The messages of a check, as format strings.
abbrev pub Problems : Type 0
Problems = List String

abbrev pub problem_if : Bool → String → Problems
problem_if test message = if test then message ∷ [] else []

abbrev pub objects : List Json → List Fields
objects [] = []
objects (obj fs ∷ vs) = fs ∷ objects vs
objects (v ∷ vs) = objects vs

-- `os.path.join`
abbrev pub from_root : Text → Bool
from_root [] = false
from_root (c ∷ path) = c == b'/'

unfoldable pub join : Text → Text → Text
join a b =
    if from_root b
    then b
    else if codes_eq a [] || ends_with (codes "/") a
    then a ++ b
    else a ++ (b'/' ∷ b)

-- The problems of several checks.
abbrev pub gather : List Problems → Problems
gather [] = []
gather (problems ∷ rest) = problems ++ gather rest

pub append-eq-nil : (xs ys : Problems) → xs ++ ys ≡ [] → (xs ≡ []) × (ys ≡ [])
append-eq-nil [] ys h = (refl, h)
append-eq-nil (x ∷ xs) ys h = absurd (cc)

pub problem_if-eq-nil : (b : Bool) (message : String) → problem_if b message ≡ [] → b ≡ false
problem_if-eq-nil b message h = ground arith

pub gather-eq-nil : (pss : List Problems) → gather pss ≡ [] → All (λ ps. ps ≡ []) pss
gather-eq-nil [] h = tt
gather-eq-nil (ps ∷ pss) h =
    let (first, rest) = append-eq-nil ps (gather pss) h in (first, gather-eq-nil pss rest)

abbrev raised_test : Outcome Bool
raised_test = raised type_error

pub in_set-eq : (v : Json) (vs : List Json) {b : Bool} → in_set v vs ≡ ok b → one_of v vs ≡ b
unfolding in_set
in_set-eq v vs h = elim (Bool-cases (is_hashable v)) [
  | inl e ↦ ok-eq (rw e at h)
  | inr e ↦ absurd (never _ (rw e at h))
]
  where
    never : (b : Bool) → raised_test ≡ ok b → ⊥
    never b q = cc
