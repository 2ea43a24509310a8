-- ===== src/Interval/Call/Rises.antt =====
-- No step of a jump lowers the depth that an analysis has found.
use axoloty_embedded.Prelude.{
  ℕ, ◌≡◌, ◌≤◌, refl, Bool, true, false, not, ◌&&◌, Option, none, some, List, [], ◌∷◌, if◌then◌else◌,
  arith, ◌==◌,
}
use mathlib.Core.Path.{subst}
use axoloty_embedded.Prelude.Int.{ℤ, pos, negsuc}
use axoloty_embedded.Outcome.{Outcome, ok, raised, ok-eq, Exception, ◌>>=◌, ◌>>◌}
use axoloty_embedded.Stack.Instruction.{Instruction, Function}
use axoloty_embedded.Interval.{Values, same_values, String, reject_if}
use axoloty_embedded.Interval.Registers.{known}
use axoloty_embedded.Interval.Program.{function}
use axoloty_embedded.Interval.Engine.{Engine, Run, Frame, Turn, Bound, raise_bound, saved_registers}
use axoloty_embedded.Interval.Jump.{return_from, check_saved, jump_parts, has_stages}
use axoloty_embedded.Interval.Call.{
  Site, bind_callback, bind_values, advance_stage, enter_stage, arrive, call, callee_bound,
  returned_turn, transfer, transfer_all, follow_others, follow_return, destinations, jump, is_once,
  member, stop_at, text_in, exceptional_names, except_at, is_internal, stay, Program, with_engine,
  links, record_edge,
}

-- The depth found so far.
abbrev pub found_depth : Run → ℕ
found_depth run = run.maximum.depth

abbrev pub Rises : Turn → Outcome Turn → Type 0
Rises t run = (next : Turn) → run ≡ ok next → found_depth t.run ≤ found_depth next.run

pub le-raise_bound :
    (depth : ℕ) (path : List (String × ℕ)) (b : Bound) → b.depth ≤ (raise_bound depth path b).depth
le-raise_bound depth path b = ground arith

pub raise_bound-ge :
    (depth : ℕ) (path : List (String × ℕ)) (b : Bound) → depth ≤ (raise_bound depth path b).depth
raise_bound-ge depth path b = ground arith

ok-Rises : (t next : Turn) → found_depth t.run ≤ found_depth next.run → Rises t (ok next)
ok-Rises t next l later h = subst (λ (x : Turn). found_depth t.run ≤ found_depth x.run) (ok-eq h) l

pub raised-Rises : (t : Turn) {e : Exception} → Rises t (raised e)
raised-Rises t next h = absurd (cc)

pub if-Rises :
    (t : Turn) (test : Bool) (a b : Outcome Turn)
    → Rises t a
    → Rises t b
    → Rises t (if test then a else b)
if-Rises t true a b h k = h
if-Rises t false a b h k = k

pub same-Rises : (t next : Turn) → found_depth t.run ≡ found_depth next.run → Rises t (ok next)
same-Rises t next e = ok-Rises t next (omega (arith, e))

pub guard-Rises :
    (t : Turn) (test : Bool) (message : String) (run : Outcome Turn)
    → Rises t run
    → Rises t (reject_if test message >> run)
guard-Rises t true message run r next h = absurd (cc)
guard-Rises t false message run r next h = r next h

pub bind-Rises :
    {A : Type 0} (t : Turn) (m : Outcome A) (f : A → Outcome Turn)
    → ((a : A) → m ≡ ok a → Rises t (f a))
    → Rises t (m >>= f)
bind-Rises t (raised e) f r next h = absurd (cc)
bind-Rises t (ok a) f r next h = r a refl next h

-- One turn behind another.
pub then-Rises :
    (t : Turn) (m : Outcome Turn) (f : Turn → Outcome Turn)
    → Rises t m
    → ((next : Turn) → Rises next (f next))
    → Rises t (m >>= f)
then-Rises t (raised e) f r s last h = absurd (cc)
then-Rises t (ok next) f r s last h = omega (arith, r next refl, s next last h)

return_from-Rises : (frame : Frame) (t : Turn) → Rises t (return_from frame t)
unfolding return_from
return_from-Rises frame t =
    guard-Rises t (not (same_values (known t.regs 2) frame.initial_sp))
      "unbalanced/ambiguous return at %s" _
      (bind-Rises {A = Unit {0}} t (check_saved saved_registers frame.initial_regs t.regs) _ (λ u e.
        guard-Rises t (has_stages frame.options && t.phase == 2)
          "initializer can return without trace end" _ (same-Rises t _ refl)))

bind_values-Rises : (site : Site) (a b : Values) (t : Turn) → Rises t (bind_values site a b t)
unfolding bind_values
bind_values-Rises site none b t = raised-Rises t
bind_values-Rises site (some xs) none t = raised-Rises t
bind_values-Rises site (some xs) (some ys) t = same-Rises t _ refl

bind_callback-Rises : (site : Site) (fn : Function) (t : Turn) → Rises t (bind_callback site fn t)
unfolding bind_callback
bind_callback-Rises site fn t =
    if-Rises t _ _ _ (bind_values-Rises site _ _ t) (same-Rises t t refl)

enter_stage-Rises :
    (site : Site) (target : ℕ) (o : Option ℕ) (t : Turn) → Rises t (enter_stage site target o t)
enter_stage-Rises site target none t = same-Rises t t refl
enter_stage-Rises site target (some n) t = guard-Rises t _ _ _ (same-Rises t _ refl)

advance_stage-Rises :
    (frame : Frame) (site : Site) (target : ℕ) (t : Turn)
    → Rises t (advance_stage frame site target t)
unfolding advance_stage
advance_stage-Rises frame site target t = enter_stage-Rises site target _ t

returned_turn-le :
    (frame : Frame) (site : Site) (target : ℕ) (callback : Values) (e : Engine) (b : Bound)
    (t : Turn)
    → found_depth t.run ≤ found_depth (returned_turn frame site target callback e b t).run
unfolding returned_turn
returned_turn-le frame site target callback e b t = le-raise_bound _ _ t.run.maximum

call-Rises :
    (frame : Frame) (site : Site) (fn : Function) (target : ℕ) (t : Turn)
    → Rises t (call frame site fn target t)
unfolding call
call-Rises frame site fn target t =
    let callback = if is_once fn then known t.regs 11 else none in
    bind-Rises {A = Engine × Bound} t (callee_bound frame target callback t.run.engine) _
      (λ after e.
        ok-Rises t (returned_turn frame site target callback after.0 after.1 t)
          (returned_turn-le frame site target callback after.0 after.1 t))

arrive-Rises :
    (frame : Frame) (site : Site) (fn : Function) (target : ℕ) (t : Turn)
    → Rises t (arrive frame site fn target t)
unfolding arrive
arrive-Rises frame site fn target t =
    if-Rises t (member target frame.options.stop_calls) _ _
      (same-Rises t (stop_at site target t) refl)
      (if-Rises t (text_in fn.name exceptional_names) _ _ (same-Rises t (except_at site fn t) refl)
        (if-Rises t (is_internal frame site fn target) _ _ (same-Rises t (stay site target t) refl)
          (call-Rises frame site fn target t)))

transfer-Rises :
    (frame : Frame) (site : Site) (target : ℤ) (t : Turn) → Rises t (transfer frame site target t)
unfolding transfer
transfer-Rises frame site (negsuc n) t = raised-Rises t
transfer-Rises frame site (pos target) t =
    bind-Rises {A = Program × Function} t (function t.run.engine.program target) _ (λ found e.
      let t₁ = with_engine (λ e. record e { program = found.0 }) t in
      guard-Rises t (target == site.owner.start && links site) "recursive entry call at %s" _ (
        then-Rises t (bind_callback site found.1 (with_engine (record_edge site found.1 target) t₁))
          _ (bind_callback-Rises site found.1 (with_engine (record_edge site found.1 target) t₁))
          (λ t₂.
            then-Rises t₂ (advance_stage frame site target t₂) _
              (advance_stage-Rises frame site target t₂)
              (λ t₃. arrive-Rises frame site found.1 target t₃))))

transfer_all-Rises :
    (frame : Frame) (site : Site) (targets : List ℤ) (t : Turn)
    → Rises t (transfer_all frame site targets t)
unfolding transfer_all
transfer_all-Rises frame site [] t = same-Rises t t refl
transfer_all-Rises frame site (target ∷ rest) t =
    then-Rises t _ _ (transfer-Rises frame site target t)
      (λ next. transfer_all-Rises frame site rest next)

follow_others-Rises :
    (frame : Frame) (site : Site) (targets : List ℤ) (t : Turn)
    → Rises t (follow_others frame site targets t)
unfolding follow_others
follow_others-Rises frame site [] t = same-Rises t t refl
follow_others-Rises frame site (target ∷ rest) t = transfer_all-Rises frame site _ _

follow_return-Rises : (frame : Frame) (b : Bool) (t : Turn) → Rises t (follow_return frame b t)
follow_return-Rises frame false t = same-Rises t t refl
follow_return-Rises frame true t = return_from-Rises frame t

destinations-Rises :
    (frame : Frame) (site : Site) (a : Values) (t : Turn) → Rises t (destinations frame site a t)
unfolding destinations
destinations-Rises frame site none t = raised-Rises t
destinations-Rises frame site (some targets) t =
    then-Rises t _ _ (follow_return-Rises frame _ t) (λ next. follow_others-Rises frame site _ next)

pub jump-Rises :
    (frame : Frame) (site : Site) (ins : Instruction) (t : Turn) → Rises t (jump frame site ins t)
unfolding jump
jump-Rises frame site ins t =
    bind-Rises {A = ℕ × Values} t (jump_parts ins t.regs) _
      (λ parts e. destinations-Rises frame (record site { link = parts.0 }) parts.1 t)
