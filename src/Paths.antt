-- ===== src/Paths.antt =====
-- src/util/paths.ts: the shapes of ids, hashes and vault prefixes, and the slug of a vault name.
pub mod Cells
pub mod Stamps
pub mod Slug
pub mod SlugLaws
pub mod Remote
