-- ===== src/Config.antt =====
-- internal/config: the rules-tree IR, its validation, segment resolution and the compilers.
pub mod Ir
pub mod Errors
pub mod Validate
pub mod Cel
pub mod Segments
pub mod Compile
pub mod Publish
