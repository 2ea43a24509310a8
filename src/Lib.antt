-- ===== src/Lib.antt =====
-- Models of the Python tools that gate an embedded image: which storage policy an image falls
-- under, how much static storage the linked image takes, how much stack its first initialization
-- needs, whether a selection of application, platform and transport fits together, and whether a
-- release manifest is borne out by its evidence.
--
-- The parts, and the code that each follows:
-- - Policy: Tools/EmbeddedApplicationMacros/static_storage_policy.py. `classify` has the source's
--   name; its branches are `carrier_image`, `swift_image`, `ceiling_policy` and `swift_policy`.
-- - Audit: Tools/EmbeddedApplicationMacros/linked_storage_audit.py. Audit/Ranges is `merged_bytes`,
--   Audit/Overlaps is `conflicting_overlaps`; Audit/Symbols holds what they read of an ELF symbol.
--   Audit/Coverage is `writable_section_class` and the coverage test of `measure`, Audit/Budget is
--   `enforce_static_storage_budget`, Audit/Inventory is `object_member` and `join_inventory`.
-- - Stack: Tools/EmbeddedApplicationMacros/first_init_stack.py. Stack/Operands is `reg` and
--   `stack_step`, Stack/Flow is `successors`, Stack/Frame is `analyze_frame`. The modules below
--   Stack/Frame hold the walks through a function, the invariant of the search, and its measure.
--   Stack/Calls is `call_sites` and `callback_argument_value`, Stack/Contracts the validators of the
--   input documents, Stack/Linked the tests of `validate_linked_inputs` on one function.
-- - Interval: the value sets and the join of states of
--   Tools/EmbeddedApplicationMacros/initialization_interval.py, and its abstract machine.
--   Interval/Branch is `refine`, Interval/Integers the operations on words, Interval/Alu, Offset,
--   Access and Transfer are the data instructions, Interval/Program is `Program.function`.
--   `Engine.analyze` is in Interval/Analyze: Worklist is its queue of states, Visit one state
--   taken from the queue, Jump and Call the jumps, returns and calls, which analyse the callee in
--   turn, Engine the records they share, and Acyclic the search for cycles in the call graph.
-- - Composition: Tools/validate-composition.py; `validate` is `validate_composition` here, its middle
--   part `check_selection`. Composition/Catalog is Tools/capability_catalog.py with `field_mask`.
-- - Release: Tools/validate-release-manifest.py. Release/Tree holds `load` and the tests that the
--   checks share, Release/Required is `required_check_problems`, Release/Evidence the records
--   (`validate_evidence`, `discover_evidence`) and Evidence/Cited `cited_evidence_problems`,
--   Release/SizeReport with Release/Fields `validate_size_report`, Release/Transport
--   `espidf_component_version` and `validate_transport_source`, Release/Paths `is_within` and
--   `load_revocation`. Release/Identity and Release/Manifest are the parts of `validate`, which
--   returns the same problems in another order. Release/Main is `main`.
-- - Json: the values of Python's json module, `==` on them, `dict.get`, `in` and truth; Json/Load is
--   the hook `unique_object`, which two of the tools install.
-- - Host: the files and the JSON parser, which are no code of this repository and so a parameter.
-- - Outcome: results, errors that a tool raises on purpose, and exceptions of Python's own.
-- - Prelude: lists, sorting, counting, integers and texts.
--
-- The tools share no state: each reads its files, decides, and ends with a status. They meet in the
-- formats of the documents. Messages are kept as format strings, without the values put into them,
-- so two errors of one kind at one place are equal here.
--
-- Fuel: the search of `analyze_frame` runs on 3 ^ (n + 1) rounds for a function of n instructions,
-- which is more than its paths can take, since a path never meets an address twice and branches at
-- most in two. The loop
-- of `Engine.analyze` stops after 100000 states in the source too, with an error. The depth of
-- Python's stack is a parameter of `analyze` and `acyclic`, and running out of it is
-- RecursionError, as in Python. Every other loop is recursion over a list.
--
-- Not modelled: argument parsing but that of Release/Main, printing and writing of reports, the self-tests, the reading of
-- ELF images and of disassembly and map files, `prove`, `describe` and
-- `classify_application_guards` of initialization_interval.py with its reading of images, the proof report over the final image (final_init_proof.py), and
-- everything that is not Python.
pub mod Prelude
pub mod Outcome
pub mod Json
pub mod Host
pub mod Policy
pub mod Stack
pub mod Audit
pub mod Release
pub mod Composition
pub mod Interval
