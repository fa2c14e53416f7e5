-- ===== src/Fit/Builder/RoundTrip.antt =====
-- A finished image, read back.
use ostool.Prelude.{
  ℕ, ◌^◌, ◌<◌, ◌≡◌, refl, ap, ◌∙◌, List, [], ◌++◌, some, length, be32, arith, length-append,
}
use ostool.Fit.Config.{FitImageConfig}
use ostool.Fit.Header.{
  FdtHeader, MemReserveEntry, fdt_magic, fdt_last_comp_version, entry_size, write_entry,
}
use ostool.Fit.Header
use ostool.Fit.StringTable
use ostool.Fit.StringTable.Laws.{new-IsValid}
use ostool.Fit.Tokens.{write_token}
use ostool.Fit.Reader.{
  read_block, read_fdt, read_all-encode, length-le-encode, encode, encode_raw, resolve, Item,
}
use ostool.Fit.Builder.{
  StandardFdtBuilder, new, finalize, write_end, ◌▸◌, build_root_node, build_structure_block,
  add_default_memory_reserve, build_fit_tree,
}
use ostool.Fit.Builder.Adds.{Says, InRange, Holds}
use ostool.Fit.Builder.Image.{image_size, read_fdt-finalize}
use ostool.Fit.Builder.Whole.{HasNames, fit_tree, Adds-root}

-- The structure block behind the end token, read with the strings.
read_block-end :
    (b : StandardFdtBuilder) (is : List Item)
    → Says b is
    → read_block b.string_table.strings (write_end b).struct_buffer ≡ some is
unfolding read_block write_end write_token encode_raw
read_block-end b is s =
    rw s.block_is (rw (read_all-encode s.raws _ [] s.raws_fit enough) s.names_stand)
  where
    enough : length s.raws < length (encode s.raws ++ be32 9)
    enough = omega (arith, length-le-encode s.raws, length-append (encode s.raws) (be32 9))

-- The builder that `build_fit_tree` ends in.
abbrev pub built : ℕ → FitImageConfig → StandardFdtBuilder
built now config = build_fit_tree now config new

-- The builder before the end token, and what holds of it.
abbrev before_end : ℕ → FitImageConfig → StandardFdtBuilder
before_end now config = build_root_node now config (add_default_memory_reserve new)

start-Holds : Holds (add_default_memory_reserve new) []
unfolding add_default_memory_reserve new encode resolve StringTable.new
start-Holds range = record {
  table_valid = new-IsValid;
  raws = [];
  raws_fit = tt;
  block_is = refl;
  names_stand = refl;
}

built-write_end :
    (now : ℕ) (config : FitImageConfig) → built now config ≡ write_end (before_end now config)
unfolding build_fit_tree build_structure_block ◌▸◌
built-write_end now config = refl

before_end_header :
    (now : ℕ) (config : FitImageConfig)
    → HasNames config
    → (before_end now config).header ≡ Header.new
unfolding add_default_memory_reserve new
before_end_header now config h =
    (Adds-root now config h).keeps_header (add_default_memory_reserve new)

before_end-Says :
    (now : ℕ) (config : FitImageConfig)
    → HasNames config
    → InRange (before_end now config)
    → Says (before_end now config) (fit_tree now config)
before_end-Says now config h =
    (Adds-root now config h).appends (add_default_memory_reserve new) [] start-Holds

before_end-InRange : (b : StandardFdtBuilder) → image_size (write_end b) < 2 ^ 32 → InRange b
unfolding write_end write_token
before_end-InRange b small = record {
  strings_fit = omega arith;
  struct_fits = grind (arith, length-append);
}

write_end_keeps :
    (b : StandardFdtBuilder)
    → ((write_end b).header ≡ b.header) × ((write_end b).string_table ≡ b.string_table)
unfolding write_end
write_end_keeps b = (refl, refl)

-- A configuration whose node names have no NUL, built into an image below 4 GiB: a boot loader
-- reads the finished image as exactly the tree of the configuration, every node, property name and
-- value in order.
pub read_fdt-build :
    (now : ℕ) (config : FitImageConfig)
    → HasNames config
    → image_size (built now config) < 2 ^ 32
    → read_fdt (finalize (built now config)) ≡ some (fit_tree now config)
unfolding Header.new
read_fdt-build now config h small =
    let b = before_end now config in
    let header : (built now config).header ≡ Header.new =
      ap (λ x. x.header) (built-write_end now config)
      ∙ (write_end_keeps b).0
      ∙ before_end_header now config h in
    let small' : image_size (write_end b) < 2 ^ 32 = rw (built-write_end now config) at small in
    read_fdt-finalize (built now config) (ap (λ x. x.magic) header)
      (ap (λ x. x.last_comp_version) header) small
    ∙ rw (built-write_end now config) (
        ap (λ t. read_block t.strings (write_end b).struct_buffer) (write_end_keeps b).1
        ∙ read_block-end b (fit_tree now config)
            (before_end-Says now config h (before_end-InRange b small')))
