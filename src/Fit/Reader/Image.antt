-- ===== src/Fit/Reader/Image.antt =====
-- Reading a whole image: the header says where the blocks are.
use ostool.Prelude.{
  ℕ, List, Option, none, some, length, take, drop, ◌==◌, ltb, if◌then◌else◌, not, ◌||◌,
}
use ostool.Fit.Reader.Block.{◌>>=◌, read_u32, Item, read_block}

-- The big-endian number at an offset.
abbrev pub u32_at : ℕ → List ℕ → Option ℕ
u32_at offset blob = read_u32 (drop offset blob) >>= λ r. some r.0

abbrev pub slice : ℕ → ℕ → List ℕ → List ℕ
slice offset size blob = take size (drop offset blob)

-- `none` if the magic number is another, the format is newer than version 17, or the total size is
-- not the size of the image.
pub read_blocks : ℕ → ℕ → ℕ → List ℕ → Option (List Item)
read_blocks magic last_comp total blob =
    if not (magic == 0xd00dfeed) || ltb 17 last_comp || not (total == length blob) then none else do
      off_struct ← u32_at 8 blob
      off_strings ← u32_at 12 blob
      size_strings ← u32_at 32 blob
      size_struct ← u32_at 36 blob
      read_block (slice off_strings size_strings blob) (slice off_struct size_struct blob)

unfoldable pub read_fdt : List ℕ → Option (List Item)
unfolding read_blocks
read_fdt blob = do
  magic ← u32_at 0 blob
  total ← u32_at 4 blob
  last_comp ← u32_at 24 blob
  read_blocks magic last_comp total blob
