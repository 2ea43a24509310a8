-- ===== src/Json.antt =====
-- JSON documents as Python values: what `json.loads` returns, and the operations of Python on them
-- that the tools use.
mod Value
mod Equality
mod Access
pub mod Load
unfoldable pub use Value.*
unfoldable pub use Equality.*
unfoldable pub use Access.*
