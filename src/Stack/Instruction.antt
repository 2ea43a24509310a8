-- ===== src/Stack/Instruction.antt =====
-- `Instruction` and `Function` of Tools/EmbeddedApplicationMacros/first_init_stack.py.
use axoloty_embedded.Prelude.{ℕ, ◌+◌, String, Option, List}

pub record Instruction : Type 0 where
  pub address : ℕ
  pub mnemonic : String
  pub operands : String
  pub target : Option ℕ
  pub size : ℕ

pub record Function : Type 0 where
  pub name : String
  pub start : ℕ
  pub size : ℕ
  pub instructions : List Instruction

-- The property `end`.
abbrev pub end_of : Function → ℕ
end_of fn = fn.start + fn.size
