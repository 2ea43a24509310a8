-- ===== src/Release.antt =====
-- Tools/validate-release-manifest.py: whether a release manifest is borne out by the repository.
pub mod Tree
pub mod Required
pub mod Evidence
pub mod Fields
pub mod SizeReport
pub mod Paths
pub mod Transport
pub mod Identity
pub mod Manifest
pub mod Main
mod Samples
