-- ===== src/Stack.antt =====
-- The first-initialization stack diagnostics, Tools/EmbeddedApplicationMacros/first_init_stack.py:
-- instructions, operands, control flow, and the stack frame of one function.
pub mod Instruction
pub mod Operands
pub mod Flow
pub mod Frame
pub mod Contracts
pub mod Linked
pub mod Calls
mod Samples
