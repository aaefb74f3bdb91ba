-- ===== src/Patch.antt =====
-- internal/patch: the text of a patch, and the files after it.
pub mod Parse
pub mod Update
pub mod Apply
pub mod Write
