-- ===== src/Audit/Symbols.antt =====
-- The ELF symbols and sections that Tools/EmbeddedApplicationMacros/linked_storage_audit.py
-- measures, and the tests on their address ranges.
use axoloty_embedded.Prelude.{ℕ, ◌+◌, Bool, not, ◌&&◌, String, ltb, ◌==◌}

pub record Symbol : Type 0 where
  pub name : String
  pub address : ℕ
  pub size : ℕ
  pub section : String
  pub section_index : ℕ
  pub is_object : Bool

abbrev pub stop_of : Symbol → ℕ
stop_of s = s.address + s.size

-- `(prior["address"], prior["size"]) == (symbol["address"], symbol["size"])`
abbrev pub same_range : Symbol → Symbol → Bool
same_range s t = s.address == t.address && s.size == t.size

-- Two ranges that differ and share an address.
abbrev pub clash : Symbol → Symbol → Bool
clash s t = not (same_range s t) && (ltb s.address (stop_of t) && ltb t.address (stop_of s))
