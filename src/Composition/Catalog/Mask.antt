-- ===== src/Composition/Catalog/Mask.antt =====
-- What the bits of `field_mask` say.
use axoloty_embedded.Prelude.{
  ℕ, zero, suc, ◌+◌, ◌*◌, ◌/◌, ◌%◌, ◌^◌, ◌≡◌, ◌<◌, refl, Bool, true, false, String, str_eq,
  str_eq_iff, Option, none, some, List, [], ◌∷◌, ◌++◌, if◌then◌else◌, any, length, In, inl, inr,
  ◌⊎◌, ◌∙◌, Bool-cases, sym, ap, arith, any-true_some, any-true_at, In-append_left, In-append_right,
  In-append_cases, ◌≢◌,
}
use mathlib.Core.Path.{subst}
use axoloty_embedded.Prelude.Text.{AreDistinct}
use axoloty_embedded.Composition.Catalog.{
  Capability, names_of, add_fields, fields_from, ordered_function_fields, functions_of, is_required,
  mask_of, field_mask, field_mask-lt,
}
use axoloty_embedded.Prelude.Text.Laws.{In-any}

-- The bit at a place of a number.
unfoldable pub bit : ℕ → ℕ → ℕ
bit n zero = n % 2
bit n (suc i) = bit (n / 2) i

-- The text at a place of a list.
unfoldable pub at : List String → ℕ → Option String
at [] i = none
at (s ∷ ss) zero = some s
at (s ∷ ss) (suc i) = at ss i

-- Some capability with one of the names has the function.
abbrev pub Needs : List Capability → List String → String → Type 0
Needs catalog names function =
    (c : Capability) × In c catalog × In c.name names × In function c.functions

any-In : (s : String) (ss : List String) → In s ss → any (str_eq s) ss ≡ true
any-In s ss m = any-true_at (str_eq s) ss s m ((str_eq_iff s s).1 refl)

-- Bits.
half : (b : Bool) (m : ℕ) → ((if b then 1 else 0) + 2 * m) / 2 ≡ m
half b m = ground arith

odd : (b : Bool) (m : ℕ) → ((if b then 1 else 0) + 2 * m) % 2 ≡ (if b then 1 else 0)
odd b m = ground arith

mask_of-bit :
    (required : String → Bool) (names : List String) (i : ℕ) (s : String)
    → at names i ≡ some s
    → bit (mask_of required names) i ≡ (if required s then 1 else 0)
unfolding bit at mask_of
mask_of-bit required [] i s h = absurd (cc)
mask_of-bit required (t ∷ names) zero s h =
    let same : t ≡ s = cc in rw (← same) (odd (required t) (mask_of required names))
mask_of-bit required (t ∷ names) (suc i) s h =
    rw (half (required t) (mask_of required names)) (mask_of-bit required names i s h)

-- Capabilities by name.
functions_of-In :
    (catalog : List Capability) (name function : String)
    → In function (functions_of catalog name)
    → (c : Capability) × In c catalog × (c.name ≡ name) × In function c.functions
unfolding functions_of
functions_of-In [] name function m = absurd m
functions_of-In (c ∷ catalog) name function m = elim (Bool-cases (str_eq c.name name)) [
  | inl e ↦ (c, inl refl, (str_eq_iff c.name name).0 e, rw e at m)
  | inr e ↦ let (d, n, f, o) = functions_of-In catalog name function (rw e at m) in (d, inr n, f, o)
]

In-names :
    (c : Capability) (catalog : List Capability) → In c catalog → In c.name (names_of catalog)
In-names c [] m = absurd m
In-names c (d ∷ catalog) (inl e) = inl (ap (λ (x : Capability). x.name) e)
In-names c (d ∷ catalog) (inr m) = inr (In-names c catalog m)

functions_of-eq :
    (catalog : List Capability) (c : Capability)
    → AreDistinct (names_of catalog)
    → In c catalog
    → functions_of catalog c.name ≡ c.functions
unfolding functions_of
functions_of-eq [] c u m = absurd m
functions_of-eq (d ∷ catalog) c (u, us) (inl e) =
    let found : str_eq d.name c.name ≡ true =
      (str_eq_iff d.name c.name).1 (ap (λ (x : Capability). x.name) (sym e)) in
    rw found (ap (λ (x : Capability). x.functions) (sym e))
functions_of-eq (d ∷ catalog) c (u, us) (inr m) = elim (Bool-cases (str_eq d.name c.name)) [
  | inr e ↦ rw e (functions_of-eq catalog c us m)
  | inl e ↦
      let again : any (str_eq d.name) (names_of catalog) ≡ true =
        any-true_at (str_eq d.name) (names_of catalog) c.name (In-names c catalog m) e in
      absurd (cc)
]

is_required-Needs :
    (catalog : List Capability) (names : List String) (function : String)
    → is_required catalog names function ≡ true
    → Needs catalog names function
is_required-Needs catalog names function h =
    let (name, m, e) = any-true_some _ names h in
    let (c, n, f, o) =
      functions_of-In catalog name function (In-any function (functions_of catalog name) e) in
    (c, n, subst (λ s. In s names) (sym f) m, o)

Needs-is_required :
    (catalog : List Capability) (names : List String) (function : String)
    → AreDistinct (names_of catalog)
    → Needs catalog names function
    → is_required catalog names function ≡ true
Needs-is_required catalog names function u (c, m, n, o) =
    any-true_at (λ name. any (str_eq function) (functions_of catalog name)) names c.name n
      (any-In function (functions_of catalog c.name) (rw (functions_of-eq catalog c u m) o))

-- The fields, each once.
AreDistinct-snoc :
    (ss : List String) (s : String)
    → AreDistinct ss
    → any (str_eq s) ss ≡ false
    → AreDistinct (ss ++ s ∷ [])
AreDistinct-snoc [] s u h = (refl, tt)
AreDistinct-snoc (t ∷ ss) s (v, u) h = elim (Bool-cases (any (str_eq t) (ss ++ s ∷ []))) [
  | inr e ↦ (e, AreDistinct-snoc ss s u (ground arith))
  | inl e ↦ absurd (clash (In-append_cases t ss (s ∷ []) (In-any t (ss ++ s ∷ []) e)))
]
  where
    clash : In t ss ⊎ In t (s ∷ []) → ⊥
    clash (inl m) = let again : any (str_eq t) ss ≡ true = any-In t ss m in cc
    clash (inr (inl q)) =
        let first : any (str_eq s) (t ∷ ss) ≡ true = any-In s (t ∷ ss) (inl (sym q)) in cc
    clash (inr (inr m)) = m

add_fields-AreDistinct :
    (seen names : List String) → AreDistinct seen → AreDistinct (add_fields seen names)
unfolding add_fields
add_fields-AreDistinct seen [] u = u
add_fields-AreDistinct seen (s ∷ names) u = elim (Bool-cases (any (str_eq s) seen)) [
  | inl e ↦ rw e (add_fields-AreDistinct seen names u)
  | inr e ↦ rw e (add_fields-AreDistinct (seen ++ s ∷ []) names (AreDistinct-snoc seen s u e))
]

add_fields-In :
    (seen names : List String) (f : String) → In f seen ⊎ In f names → In f (add_fields seen names)
unfolding add_fields
add_fields-In seen [] f (inl m) = m
add_fields-In seen [] f (inr m) = absurd m
add_fields-In seen (s ∷ names) f h = elim (Bool-cases (any (str_eq s) seen)) [
  | inl e ↦ rw e (add_fields-In seen names f (old e h))
  | inr e ↦ rw e (add_fields-In (seen ++ s ∷ []) names f (new h))
]
  where
    old : any (str_eq s) seen ≡ true → In f seen ⊎ In f (s ∷ names) → In f seen ⊎ In f names
    old e (inl m) = inl m
    old e (inr (inl q)) = inl (subst (λ r. In r seen) (sym q) (In-any s seen e))
    old e (inr (inr m)) = inr m

    new : In f seen ⊎ In f (s ∷ names) → In f (seen ++ s ∷ []) ⊎ In f names
    new (inl m) = inl (In-append_left f seen (s ∷ []) m)
    new (inr (inl q)) = inl (In-append_right f seen (s ∷ []) (inl q))
    new (inr (inr m)) = inr m

fields_from-AreDistinct :
    (seen : List String) (catalog : List Capability)
    → AreDistinct seen
    → AreDistinct (fields_from seen catalog)
unfolding fields_from
fields_from-AreDistinct seen [] u = u
fields_from-AreDistinct seen (c ∷ catalog) u =
    fields_from-AreDistinct (add_fields seen c.functions) catalog
      (add_fields-AreDistinct seen c.functions u)

fields_from-seen :
    (seen : List String) (catalog : List Capability) (f : String)
    → In f seen
    → In f (fields_from seen catalog)
unfolding fields_from
fields_from-seen seen [] f m = m
fields_from-seen seen (c ∷ catalog) f m =
    fields_from-seen (add_fields seen c.functions) catalog f
      (add_fields-In seen c.functions f (inl m))

fields_from-In :
    (seen : List String) (catalog : List Capability) (c : Capability) (f : String)
    → In c catalog
    → In f c.functions
    → In f (fields_from seen catalog)
unfolding fields_from
fields_from-In seen [] c f n m = absurd n
fields_from-In seen (d ∷ catalog) c f (inl e) m =
    fields_from-seen (add_fields seen d.functions) catalog f
      (add_fields-In seen d.functions f (inr (subst (λ (x : Capability). In f x.functions) e m)))
fields_from-In seen (d ∷ catalog) c f (inr n) m =
    fields_from-In (add_fields seen d.functions) catalog c f n m

-- The mask of the capabilities with these names, bit by bit.
pub record IsMask (catalog : List Capability) (names fields : List String) (mask : ℕ) : Type 0 where
  pub below : mask < 2 ^ length fields
  pub distinct : AreDistinct fields
  pub complete :
      (c : Capability) (function : String)
      → In c catalog
      → In function c.functions
      → In function fields
  pub set :
      (i : ℕ) (function : String)
      → at fields i ≡ some function
      → Needs catalog names function
      → bit mask i ≡ 1
  pub clear :
      (i : ℕ) (function : String)
      → at fields i ≡ some function
      → bit mask i ≢ 0
      → Needs catalog names function

-- If the names of a catalog are distinct, then its function fields are listed once each, and none is
-- left out; and the mask of some capabilities has no bit beyond the fields, and has the bit of a
-- field exactly if a capability of the catalog with one of their names has the field.
pub field_mask-IsMask :
    (catalog : List Capability) (names : List String)
    → AreDistinct (names_of catalog)
    → IsMask catalog names (ordered_function_fields catalog) (field_mask catalog names)
unfolding ordered_function_fields field_mask
field_mask-IsMask catalog names u = record {
  below = field_mask-lt catalog names;
  distinct = fields_from-AreDistinct [] catalog tt;
  complete = λ c function m n. fields_from-In [] catalog c function m n;
  set = λ i function h n.
      let r = Needs-is_required catalog names function u n in
      mask_of-bit (is_required catalog names) (fields_from [] catalog) i function h ∙ rw r refl;
  clear = λ i function h b. elim (Bool-cases (is_required catalog names function)) [
    | inl r ↦ is_required-Needs catalog names function r
    | inr r ↦
        let e = mask_of-bit (is_required catalog names) (fields_from [] catalog) i function h in
        absurd (b (e ∙ rw r refl))
  ];
}
