-- ===== src/Fit/Reader.antt =====
-- The device tree format as its specification gives it, read back: what a boot loader sees of the
-- bytes. It is independent of the writer, and the theorems about the writer are stated by it.
mod Block
mod Encode
mod Image
unfoldable pub use Block.*
unfoldable pub use Encode.*
unfoldable pub use Image.*
