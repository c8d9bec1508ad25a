-- ===== src/Base/Text.antt =====
-- Python's `str` as the list of its code points, with the methods that the scripts call.
mod Defs
pub mod Laws
pub mod Replace
pub mod Lines
unfoldable pub use Defs.*
unfoldable pub use Replace.{count, replace}
unfoldable pub use Lines.{
  newline, Lacks, split, is_space, lstrip, rstrip, strip, words, is_line_end, splitlines,
}
