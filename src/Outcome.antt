-- ===== src/Outcome.antt =====
-- The ways in which a call of the tools ends: a value, an error that the program raises on purpose
-- (its own exception class, with the message's format string), or an exception of Python's that
-- the program does not raise itself.
use axoloty_embedded.Prelude.{◌≡◌, refl, Bool, true, false, String}

pub data Exception : Type 0 where
  -- PolicyError, CompositionError, AuditError, InputError, Unclosed
  rejected : String → Exception
  type_error key_error index_error attribute_error unicode_error value_error io_error : Exception
  recursion_error : Exception

pub data Outcome (A : Type 0) : Type 0 where
  ok : A → Outcome A
  raised : Exception → Outcome A

-- An exception ends the run; what stands behind it is not reached.
infixl 5 ◌>>=◌
abbrev pub ◌>>=◌ : {A B : Type 0} → Outcome A → (A → Outcome B) → Outcome B
raised exception >>= next = raised exception
ok value >>= next = next value

-- `if test: raise Error(message)`
abbrev pub reject_if : Bool → String → Outcome (Unit {0})
reject_if test message = elim test [ true ↦ raised (rejected message) | false ↦ ok tt ]

infixl 5 ◌>>◌
abbrev pub ◌>>◌ : {B : Type 0} → Outcome (Unit {0}) → Outcome B → Outcome B
check >> next = check >>= λ passed. next

-- The parts of a run that returned.
pub >>=-eq-ok :
    {A B : Type 0} (m : Outcome A) (f : A → Outcome B) {b : B}
    → m >>= f ≡ ok b
    → (a : A) × (m ≡ ok a) × (f a ≡ ok b)
>>=-eq-ok (raised exception) f h = absurd (cc)
>>=-eq-ok (ok value) f h = (value, refl, h)

pub reject_if-eq-ok :
    {B : Type 0} (test : Bool) (message : String) (k : Outcome B) {b : B}
    → (reject_if test message >> k) ≡ ok b
    → (test ≡ false) × (k ≡ ok b)
reject_if-eq-ok true message k h = cc
reject_if-eq-ok false message k h = (refl, h)

pub ok-eq : {A : Type 0} {a b : A} → ok a ≡ ok b → a ≡ b
ok-eq h = cc
