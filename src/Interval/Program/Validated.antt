-- ===== src/Interval/Program/Validated.antt =====
-- What `Program.function` returns was validated, and a helper in a gap has the bytes of the image.
use axoloty_embedded.Prelude.{
  ℕ, ◌+◌, ◌-◌, ◌≡◌, ◌≤◌, ◌<◌, refl, Bool, true, false, not, Option, none, some, List, [], ◌∷◌,
  if◌then◌else◌, ltb, ◌==◌, In, Bool-cases, inl, inr, arith, In-select_elim, ==_refl, sort_by-In,
  not-false, ap, sym,
}
use mathlib.Core.Path.{subst}
use axoloty_embedded.Outcome.{
  Outcome, ok, raised, ◌>>=◌, >>=-eq-ok, ok-eq, reject_if-eq-ok, Exception,
}
use axoloty_embedded.Stack.Instruction.{Function, end_of}
use axoloty_embedded.Stack.Flow.{member}
use axoloty_embedded.Stack.Linked.{Encoded, lies_in}
use axoloty_embedded.Interval.Program.{
  Program, function, from_tables, admit, contained, uncontained, helper_function, gap_function,
  gap_cursor, gap_body, gap_end, image_match, at_address, remember, own, vector_at,
  vector_or_helper, is_vector, anonymous_at, sort_by, by_pc,
}

-- The starts of all owners are validated.
abbrev pub IsValidated : Program → Type 0
IsValidated p =
    (address : ℕ) (fn : Function)
    → at_address address p.owners ≡ some fn
    → member fn.start p.validated ≡ true

-- What a run must show of its result.
abbrev pub Valid : Program × Function → Type 0
Valid r = (member r.1.start r.0.validated ≡ true) × IsValidated r.0

abbrev Validates : Outcome (Program × Function) → Type 0
Validates run = (r : Program × Function) → run ≡ ok r → Valid r

Validates-if :
    (test : Bool) (a b : Outcome (Program × Function))
    → Validates a
    → Validates b
    → Validates (if test then a else b)
Validates-if true a b h k = h
Validates-if false a b h k = k

remember-Valid : (p : Program) (fn : Function) → IsValidated p → Valid (remember fn p, fn)
remember-Valid p fn v =
    (rw (==_refl fn.start) refl, λ address other h. let m = v address other h in ground arith)

some_function : {f g : Function} → some f ≡ some g → f ≡ g
some_function h = cc

own-Valid :
    (address : ℕ) (fn : Function) (p : Program)
    → IsValidated p
    → member fn.start p.validated ≡ true
    → Valid (own address fn p, fn)
unfolding at_address
own-Valid address fn p v m = (m, owned)
  where
    owned :
        (key : ℕ) (other : Function)
        → (if address == key then some fn else at_address key p.owners) ≡ some other
        → member other.start p.validated ≡ true
    owned key other h = elim (Bool-cases (address == key)) [
      | inl e ↦
          let same : fn ≡ other = some_function (rw e at h) in
          subst (λ (f : Function). member f.start p.validated ≡ true) same m
      | inr e ↦ v key other (rw e at h)
    ]

gap_function-Validates :
    (p : Program) (address : ℕ) → IsValidated p → Validates (gap_function p address)
unfolding gap_function
gap_function-Validates p address v r h =
    let (cursor, c, h₁) =
      >>=-eq-ok (gap_cursor p address (gap_body p address (gap_end p address))) _ h in
    let (same, h₂) = reject_if-eq-ok _ _ _ h₁ in
    subst Valid (ok-eq h₂) (
      remember-Valid p
        (anonymous_at address (gap_end p address - address)
          (gap_body p address (gap_end p address)))
        v)

raised-Validates : {e : Exception} → Validates (raised e)
raised-Validates r h = cc

helper_function-Validates :
    (p : Program) (address : ℕ) → IsValidated p → Validates (helper_function p address)
unfolding helper_function
helper_function-Validates p address v =
    Validates-if _ _ _ (gap_function-Validates p address v) raised-Validates

uncontained-Validates :
    (p : Program) (address : ℕ) (o : Option Encoded)
    → IsValidated p
    → Validates (uncontained p address o)
unfolding uncontained
uncontained-Validates p address none v = helper_function-Validates p address v
uncontained-Validates p address (some e) v =
    Validates-if (is_vector e) _ _ vector (helper_function-Validates p address v)
  where
    vector : Validates (image_match p e >>= vector_or_helper p address e)
    vector r h = let (b, m, k) = >>=-eq-ok (image_match p e) _ h in found b k
      where
        found : (b : Bool) → vector_or_helper p address e b ≡ ok r → Valid r
        found true k = subst Valid (ok-eq k) (remember-Valid p (vector_at address e) v)
        found false k = helper_function-Validates p address v r k

admit-Validates :
    (p : Program) (address : ℕ) (fn : Function) → IsValidated p → Validates (admit p address fn)
unfolding admit
admit-Validates p address fn v = elim (Bool-cases (member fn.start p.validated)) [
  | inl m ↦ rw m (λ r h. subst Valid (ok-eq h) (own-Valid address fn p v m))
  | inr m ↦ rw m (λ r h.
      let (done, c, k) = >>=-eq-ok (p.validate fn) _ h in
      let q = record p { validated = fn.start ∷ p.validated } in
      subst Valid (ok-eq k) (own-Valid address fn q kept (rw (==_refl fn.start) refl)))
]
  where
    kept :
        (a : ℕ) (other : Function)
        → at_address a p.owners ≡ some other
        → member other.start (fn.start ∷ p.validated) ≡ true
    kept a other h = let m = v a other h in ground arith

contained-Validates :
    (p : Program) (address : ℕ) (fns : List Function)
    → IsValidated p
    → Validates (contained p address fns)
unfolding contained
contained-Validates p address [] v = uncontained-Validates p address _ v
contained-Validates p address (fn ∷ rest) v = admit-Validates p address _ v

from_tables-Validates :
    (p : Program) (address : ℕ) (o : Option Function)
    → IsValidated p
    → Validates (from_tables p address o)
from_tables-Validates p address none v = contained-Validates p address _ v
from_tables-Validates p address (some fn) v = admit-Validates p address fn v

-- If `function` returns a function, and the starts of all owners were validated, then the start of
-- the function is validated and the starts of all owners are still, whether the function came from
-- the tables, holds the address, is a jump of a vector table or a helper in a gap.
pub function-IsValidated :
    (p q : Program) (address : ℕ) (fn : Function)
    → function p address ≡ ok (q, fn)
    → IsValidated p
    → (member fn.start q.validated ≡ true) × IsValidated q
unfolding function
function-IsValidated p q address fn h v = from_tables-Validates p address _ v (q, fn) h

-- An instruction of a gap that holds the address has the bytes of the image.
abbrev pub Decoded : Program → ℕ → List Encoded → Type 0
Decoded p n body =
    (e : Encoded) × In e body × (lies_in n e.ins ≡ true) × (image_match p e ≡ ok true)

gap_cursor-Decoded :
    (p : Program) (cursor finish : ℕ) (body : List Encoded) (n : ℕ)
    → gap_cursor p cursor body ≡ ok finish
    → cursor ≤ n
    → n < finish
    → Decoded p n body
unfolding gap_cursor
gap_cursor-Decoded p cursor finish [] n h a b =
    let e : cursor ≡ finish = cc in absurd (omega (arith, e))
gap_cursor-Decoded p cursor finish (e ∷ body) n h a b =
    let (here, h₁) = reject_if-eq-ok (not (e.ins.address == cursor)) _ _ h in
    let (m, hm, h₂) = >>=-eq-ok (image_match p e) _ h₁ in
    let (t, h₃) = reject_if-eq-ok (not m) _ _ h₂ in
    let matches : image_match p e ≡ ok true = rw (not-false m t) at hm in
    elim (Bool-cases (ltb n (cursor + e.ins.size))) [
      | inl l ↦ (e, inl refl, ground arith, matches)
      | inr l ↦
          let (e', i, l', m') =
            gap_cursor-Decoded p (cursor + e.ins.size) finish body n h₃ (ground arith) b in
          (e', inr i, l', m')
    ]

-- If a helper between two functions is accepted, then every address of it lies in an instruction of
-- the program's listing whose encoding stands in the image at its place.
pub gap_function-Decoded :
    (p q : Program) (address : ℕ) (fn : Function) (n : ℕ)
    → gap_function p address ≡ ok (q, fn)
    → address ≤ n
    → n < end_of fn
    → Decoded p n p.instructions
unfolding gap_function gap_body
gap_function-Decoded p q address fn n h a b =
    let finish = gap_end p address in
    let (cursor, c, h₁) = >>=-eq-ok (gap_cursor p address (gap_body p address finish)) _ h in
    let body = gap_body p address finish in
    let (same, h₂) = reject_if-eq-ok (not (cursor == finish)) _ _ h₁ in
    let made : anonymous_at address (finish - address) body ≡ fn = second (ok-eq h₂) in
    let size : end_of fn ≡ address + (finish - address) = ap end_of (sym made) in
    let ends : cursor ≡ finish = ground arith in
    let (e, i, l, m) =
      gap_cursor-Decoded p address cursor body n c a (omega (arith, size, ends, b)) in
    let listed = In-select_elim _ (sort_by by_pc p.instructions) e i in
    (e, sort_by-In by_pc e p.instructions listed.0, l, m)
  where
    second : {x y : Program × Function} → x ≡ y → x.1 ≡ y.1
    second e = ap (λ (r : Program × Function). r.1) e
