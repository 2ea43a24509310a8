-- ===== src/Stack/Flow/Inside.antt =====
-- Control stays inside the function, and has at most two ways to go.
use axoloty_embedded.Prelude.{
  ℕ, ◌≤◌, ◌≡◌, refl, Bool, true, false, not, ◌&&◌, Option, none, some, List, [], ◌∷◌, if◌then◌else◌,
  length, arith, All, String, ◌||◌, str_eq,
}
use axoloty_embedded.Stack.Instruction.{Instruction, Function}
use axoloty_embedded.Stack.Flow.{
  Flow, member, known, successors, refuse, next_address, fall_through, direct_jump, jump, branch,
  call, jal_flow, jalr_flow, leave, is_reg, codes, text_in, returns, register_jumps, system_traps,
  uncond_jumps, branches, supported_linear,
}

-- The successors of an instruction lie in `starts`.
pub record Inside (starts : List ℕ) (flow : Flow) : Type 0 where
  pub belongs : All (λ n. member n starts ≡ true) flow.next
  pub few : length flow.next ≤ 2

pub Inside-if :
    (starts : List ℕ) (b : Bool) (f g : Flow)
    → Inside starts f
    → Inside starts g
    → Inside starts (if b then f else g)
Inside-if starts true f g h k = h
Inside-if starts false f g h k = k

-- What `known` lets through belongs to the function.
abbrev KnownIn : List ℕ → Option ℕ → Type 0
KnownIn starts none = Unit {0}
KnownIn starts (some pc) = member pc starts ≡ true

known-KnownIn : (starts : List ℕ) (o : Option ℕ) → KnownIn starts (known o starts)
known-KnownIn starts none = tt
known-KnownIn starts (some pc) = ground arith

module _ (starts : List ℕ) where
  fall_through-Inside :
      (next : Option ℕ) (message : String)
      → KnownIn starts next
      → Inside starts (fall_through next message)
  fall_through-Inside none message h = record { belongs = tt; few = omega arith }
  fall_through-Inside (some pc) message h = record { belongs = (h, tt); few = omega arith }

  direct_jump-Inside :
      (target inside : Option ℕ) → KnownIn starts inside → Inside starts (direct_jump target inside)
  direct_jump-Inside none inside h = record { belongs = tt; few = omega arith }
  direct_jump-Inside (some pc) none h = record { belongs = tt; few = omega arith }
  direct_jump-Inside (some pc) (some n) h = record { belongs = (h, tt); few = omega arith }

  jump-Inside :
      (target inside : Option ℕ) → KnownIn starts inside → Inside starts (jump target inside)
  jump-Inside target (some n) h = record { belongs = (h, tt); few = omega arith }
  jump-Inside none none h = record { belongs = tt; few = omega arith }
  jump-Inside (some pc) none h = record { belongs = tt; few = omega arith }

  branch-Inside :
      (inside next : Option ℕ)
      → KnownIn starts inside
      → KnownIn starts next
      → Inside starts (branch inside next)
  branch-Inside none next h k = record { belongs = tt; few = omega arith }
  branch-Inside (some n) none h k = record { belongs = tt; few = omega arith }
  branch-Inside (some n) (some m) h k = record { belongs = (h, (k, tt)); few = omega arith }

  call-Inside :
      (target next : Option ℕ) (message : String)
      → KnownIn starts next
      → Inside starts (call target next message)
  call-Inside none next message h = record { belongs = tt; few = omega arith }
  call-Inside (some pc) next message h = fall_through-Inside next _ h

  stop : (flow : Flow) → flow.next ≡ [] → Inside starts flow
  stop flow e = record { belongs = rw e tt; few = rw e (omega arith) }

  jal_flow-Inside :
      (ins : Instruction) (inside next : Option ℕ)
      → KnownIn starts inside
      → KnownIn starts next
      → Inside starts (jal_flow ins inside next)
  unfolding jal_flow
  jal_flow-Inside ins inside next h k =
      Inside-if starts _ _ _ (direct_jump-Inside ins.target inside h)
        (Inside-if starts _ _ _ (stop _ refl) (call-Inside ins.target next _ k))

  jalr_flow-Inside :
      (ins : Instruction) (next : Option ℕ)
      → KnownIn starts next
      → Inside starts (jalr_flow ins next)
  unfolding jalr_flow
  jalr_flow-Inside ins next k =
      Inside-if starts _ _ _ (stop _ refl) (call-Inside ins.target next _ k)

  -- Every successor is an instruction of the function, and there are at most two.
  pub successors-Inside :
      (fn : Function) (index : ℕ) (ins : Instruction)
      → Inside starts (successors fn index ins starts)
  unfolding successors
  successors-Inside fn index ins =
      let m = ins.mnemonic in
      let to_ra = is_reg (codes ins.operands) "ra" in
      let to_t0 = is_reg (codes ins.operands) "t0" in
      Inside-if starts (text_in m returns || (text_in m register_jumps && to_ra)) (leave none) _
        (stop _ refl)
        (Inside-if starts (text_in m system_traps)
          (refuse "system trap/exception flow is not modeled") _ (stop _ refl)
          (Inside-if starts (text_in m uncond_jumps) _ _ (jump-Inside ins.target _ inside) (
            Inside-if starts (text_in m branches) _ _ (branch-Inside _ _ inside next) (
              Inside-if starts (text_in m register_jumps && to_t0) (leave none) _ (stop _ refl) (
                Inside-if starts (text_in m register_jumps)
                  (refuse
                    "indirect control transfer (including outlined link-register continuation)")
                  _ (stop _ refl)
                  (Inside-if starts (text_in m ("jal" ∷ "c.jal" ∷ [])) _ _
                    (jal_flow-Inside ins _ _ inside next)
                    (Inside-if starts (str_eq m "jalr") _ _ (jalr_flow-Inside ins _ next) (
                      Inside-if starts (not (text_in m supported_linear))
                        (refuse "unsupported instruction/control-flow semantics for %s") _
                        (stop _ refl)
                        (fall_through-Inside _ "missing or discontinuous fallthrough instruction"
                          next)))))))))
    where
      inside : KnownIn starts (known ins.target starts)
      inside = known-KnownIn starts ins.target

      next : KnownIn starts (next_address fn index ins starts)
      next = known-KnownIn starts _
