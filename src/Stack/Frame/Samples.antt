-- ===== src/Stack/Frame/Samples.antt =====
-- `analyze_frame` on a function with a branch, whose frame has 16 bytes.
use axoloty_embedded.Prelude.{ℕ, ◌≡◌, refl, false, Option, none, some, [], ◌∷◌, String, inl}
use axoloty_embedded.Prelude.Int.{pos, negsuc, ◌-ℤ◌, ◌+ℤ◌}
use axoloty_embedded.Outcome.{ok}
use axoloty_embedded.Stack.Frame.{Frame, analyze_frame, fetch, starts_of, flow_of}
use axoloty_embedded.Stack.Operands.{stack_step}
use axoloty_embedded.Stack.Flow.{successors}
use axoloty_embedded.Stack.Instruction.{Instruction, Function}
use axoloty_embedded.Stack.Frame.Reach.{Settled, Walk, start, then_edge, edge}
use axoloty_embedded.Stack.Flow.Inside.{Inside, successors-Inside}
use axoloty_embedded.Stack.Frame.Sound.{analyze_frame_sound}
use axoloty_embedded.Stack.Frame.Total.{analyze_frame-total}

abbrev at : ℕ → String → String → Option ℕ → Instruction
at address mnemonic operands target = record {
  address = address;
  mnemonic = mnemonic;
  operands = operands;
  target = target;
  size = 4;
}

abbrev leaf : Function
leaf = record {
  name = "leaf";
  start = 0;
  size = 20;
  instructions =
      at 0 "addi" "sp, sp, -16" none
      ∷ at 4 "beqz" "a0, c" (some 12)
      ∷ at 8 "nop" "" none
      ∷ at 12 "addi" "sp, sp, 16" none
      ∷ at 16 "ret" "" none
      ∷ [];
}

abbrev leaf_frame : Frame
leaf_frame = record {
  frame_bytes = some (pos 16);
  minimum_delta = negsuc 15;
  unresolved = [];
  return_paths = 1;
}

leaf_run : analyze_frame leaf false ≡ some (ok leaf_frame)
unfolding analyze_frame ◌+ℤ◌ ◌-ℤ◌
leaf_run = refl

analyze_frame-total_example : (frame : Frame) × (analyze_frame leaf false ≡ some (ok frame))
analyze_frame-total_example = analyze_frame-total leaf false

first_step : Walk leaf false (0, pos 0) (4, negsuc 15)
unfolding fetch stack_step flow_of starts_of ◌+ℤ◌
first_step =
    then_edge start (edge 0 (at 0 "addi" "sp, sp, -16" none) (negsuc 15) refl refl (inl refl))

analyze_frame_sound_example : Settled leaf false (pos 0 -ℤ pos 16) (4, negsuc 15)
analyze_frame_sound_example =
    analyze_frame_sound leaf false leaf_frame (pos 16) leaf_run refl refl (4, negsuc 15) first_step

successors-Inside_example :
    Inside (starts_of leaf) (successors leaf 1 (at 4 "beqz" "a0, c" (some 12)) (starts_of leaf))
successors-Inside_example =
    successors-Inside (starts_of leaf) leaf 1 (at 4 "beqz" "a0, c" (some 12))
