-- ===== src/Fit/Builder/Align.antt =====
-- Where the value of a device tree's data property stands in the image.
use ostool.Prelude.{
  ℕ, ◌+◌, ◌*◌, ◌%◌, ◌≡◌, refl, ap, List, ◌++◌, Text, length, as_u32, be32, arith, length-append,
  Bool-cases, inl, inr, ◌==◌,
}
use ostool.Fit.StringTable.{add_string}
use ostool.Fit.Reader.{padded}
use ostool.Fit.Tokens.{write_token, write_prop_header, write_prop_data-padded}
use ostool.Fit.Builder.{
  StandardFdtBuilder, data_offset, fdt_data_alignment, align_fdt_data, add_fdt_property_data,
  add_property_data, begin_property, ◌▸◌,
}

-- What is in front of the value, and that it ends at a multiple of 8.
abbrev pub PutsAligned : StandardFdtBuilder → StandardFdtBuilder → List ℕ → Type 0
PutsAligned b b' v =
    (front : List ℕ) × (b'.struct_buffer ≡ front ++ padded v)
    × ((56 + length b.mem_reserve * 16 + length front) % 8 ≡ 0)

align_fdt_data_lem :
    (b : StandardFdtBuilder)
    → length b.struct_buffer % 4 ≡ 0
    → (data_offset (align_fdt_data b) % 8 ≡ 0)
      × (length (align_fdt_data b).struct_buffer % 4 ≡ 0)
      × ((align_fdt_data b).mem_reserve ≡ b.mem_reserve)
unfolding align_fdt_data write_token
align_fdt_data_lem b h = elim (Bool-cases (data_offset b % fdt_data_alignment == 0)) [
  | inl fine ↦ rw fine (ground arith, h, refl)
  | inr off ↦ rw off (
    ground (arith, length-append b.struct_buffer (be32 4)),
    omega (arith, length-append b.struct_buffer (be32 4)),
    refl,
  )
]

add_property_data-front :
    (b : StandardFdtBuilder) (name : Text) (v : List ℕ)
    → length b.struct_buffer % 4 ≡ 0
    → (front : List ℕ) × ((add_property_data name v b).struct_buffer ≡ front ++ padded v)
      × (length front ≡ length b.struct_buffer + 12)
unfolding add_property_data begin_property write_token write_prop_header
add_property_data-front b name v h =
    (front, write_prop_data-padded front v (omega (arith, measured)), measured)
  where
    offset : ℕ
    offset = (add_string b.string_table name).1

    front : List ℕ
    front = ((b.struct_buffer ++ be32 3) ++ be32 (as_u32 (length v))) ++ be32 offset

    measured : length front ≡ length b.struct_buffer + 12
    measured = grind (arith, length-append)

-- Behind whole tokens, a nested device tree is put where its offset in the finished image, after
-- the header and the memory reserve map, is a multiple of 8.
pub add_fdt_property_data-PutsAligned :
    (b : StandardFdtBuilder) (name : Text) (v : List ℕ)
    → length b.struct_buffer % 4 ≡ 0
    → PutsAligned b (add_fdt_property_data name v b) v
unfolding add_fdt_property_data ◌▸◌
add_fdt_property_data-PutsAligned b name v h =
    let (at, even, kept) = align_fdt_data_lem b h in
    let (front, e, measured) = add_property_data-front (align_fdt_data b) name v even in
    (front, e, omega (arith, at, measured, ap length kept))
