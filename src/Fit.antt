-- ===== src/Fit.antt =====
-- fitimage/src: the FIT image writer. `StringTable`, `Header` and `Tokens` are the three parts of
-- a flattened device tree, `Builder` puts them together, `Reader` is the format read back.
pub mod Reader
pub mod StringTable
pub mod Header
pub mod Tokens
pub mod Config
pub mod Builder
pub mod Image
pub mod Crc
