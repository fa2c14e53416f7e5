-- ===== src/Fit/Builder/Image.antt =====
-- What `finalize` lays out, read back by the header's fields.
use ostool.Prelude.{
  ℕ, ◌+◌, ◌*◌, ◌%◌, ◌^◌, ◌<◌, ◌≡◌, refl, sym, ap, ◌∙◌, List, [], ◌∷◌, ◌++◌, some, length, be64,
  of_be32-be32, IsU32, as_u32, ==_refl, arith, append_assoc, append-nil, length-append, take-append,
  drop-append,
}
use mathlib.Core.Path.{ap₂}
use ostool.Fit.Header.{
  FdtHeader, MemReserveEntry, fdt_magic, fdt_last_comp_version, entry_size, write_entry,
}
use ostool.Fit.Header
use ostool.Fit.StringTable
use ostool.Fit.Reader.{read_block, read_fdt, u32_at, slice}
use ostool.Fit.Builder.{StandardFdtBuilder, write_entries, finalize}

-- The bytes of the memory reserve map.
abbrev entries : List MemReserveEntry → List ℕ
entries [] = []
entries (e ∷ es) = be64 e.address ++ (be64 e.size ++ entries es)

write_entries-append :
    (es : List MemReserveEntry) (buffer : List ℕ) → write_entries es buffer ≡ buffer ++ entries es
unfolding write_entries write_entry
write_entries-append [] buffer = sym (append-nil buffer)
write_entries-append (e ∷ es) buffer = write_entries-append es _ ∙ simp append_assoc

length-entries : (es : List MemReserveEntry) → length (entries es) ≡ length es * entry_size
length-entries [] = omega arith
length-entries (e ∷ es) = omega (arith, length-entries es)

-- The size of the finished image, before it is cut to `u32`.
abbrev pub image_size : StandardFdtBuilder → ℕ
image_size b =
    56 + length b.mem_reserve * 16 + length b.struct_buffer + length b.string_table.strings

-- An image is read by what its header says.
read_fdt-fields :
    (blob : List ℕ) {off_struct off_strings size_strings size_struct : ℕ}
    → u32_at 0 blob ≡ some fdt_magic
    → u32_at 4 blob ≡ some (length blob)
    → u32_at 24 blob ≡ some fdt_last_comp_version
    → u32_at 8 blob ≡ some off_struct
    → u32_at 12 blob ≡ some off_strings
    → u32_at 32 blob ≡ some size_strings
    → u32_at 36 blob ≡ some size_struct
    → read_fdt blob
      ≡ read_block (slice off_strings size_strings blob) (slice off_struct size_struct blob)
unfolding read_fdt
read_fdt-fields blob magic total version e0 e1 e2 e3 =
    rw (magic, total, version) (rw (==_refl (length blob), e0, e1, e2, e3))

-- A header's fields where the format has them, whatever follows.
module _ (h : FdtHeader) (body : List ℕ) where
  abbrev blob : List ℕ
  blob = Header.write_to_buffer h [] ++ body

  magic_at : IsU32 h.magic → u32_at 0 blob ≡ some h.magic
  unfolding Header.write_to_buffer
  magic_at fits = ap some (of_be32-be32 h.magic fits)

  total_at : IsU32 h.totalsize → u32_at 4 blob ≡ some h.totalsize
  unfolding Header.write_to_buffer
  total_at fits = ap some (of_be32-be32 h.totalsize fits)

  struct_at : IsU32 h.off_dt_struct → u32_at 8 blob ≡ some h.off_dt_struct
  unfolding Header.write_to_buffer
  struct_at fits = ap some (of_be32-be32 h.off_dt_struct fits)

  strings_at : IsU32 h.off_dt_strings → u32_at 12 blob ≡ some h.off_dt_strings
  unfolding Header.write_to_buffer
  strings_at fits = ap some (of_be32-be32 h.off_dt_strings fits)

  version_at : IsU32 h.last_comp_version → u32_at 24 blob ≡ some h.last_comp_version
  unfolding Header.write_to_buffer
  version_at fits = ap some (of_be32-be32 h.last_comp_version fits)

  size_strings_at : IsU32 h.size_dt_strings → u32_at 32 blob ≡ some h.size_dt_strings
  unfolding Header.write_to_buffer
  size_strings_at fits = ap some (of_be32-be32 h.size_dt_strings fits)

  size_struct_at : IsU32 h.size_dt_struct → u32_at 36 blob ≡ some h.size_dt_struct
  unfolding Header.write_to_buffer
  size_struct_at fits = ap some (of_be32-be32 h.size_dt_struct fits)

  length-header : length blob ≡ 56 + length body
  unfolding Header.write_to_buffer
  length-header = omega arith

-- The header that `finalize` writes.
abbrev final_header : StandardFdtBuilder → FdtHeader
final_header b = record header {
  totalsize = image_size b;
  off_dt_struct = 56 + length mem_reserve * 16;
  off_dt_strings = 56 + length mem_reserve * 16 + length struct_buffer;
  off_mem_rsvmap = 56;
  size_dt_strings = length string_table.strings;
  size_dt_struct = length struct_buffer;
}
  where
    open b use {header, mem_reserve, struct_buffer, string_table}

-- Below 4 GiB no sum wraps, and the parts stand one behind the other.
finalize-parts :
    (b : StandardFdtBuilder)
    → image_size b < 2 ^ 32
    → finalize b
      ≡ Header.write_to_buffer (final_header b) []
        ++ (entries b.mem_reserve ++ (b.struct_buffer ++ b.string_table.strings))
unfolding finalize Header.finalize StringTable.size StringTable.finalize
finalize-parts b small =
    ap (λ h. write_entries b.mem_reserve (Header.write_to_buffer h []) ++ blocks) unwrapped
    ∙ ap (λ x. x ++ blocks)
        (write_entries-append b.mem_reserve (Header.write_to_buffer (final_header b) []))
    ∙ append_assoc (Header.write_to_buffer (final_header b) []) (entries b.mem_reserve) blocks
  where
    blocks : List ℕ
    blocks = b.struct_buffer ++ b.string_table.strings

    wrapped : FdtHeader
    wrapped = record (b.header) {
      totalsize =
          (((56 + as_u32 (length b.mem_reserve * 16)) % 2 ^ 32 + as_u32 (length b.struct_buffer))
              % 2 ^ 32
            + as_u32 (length b.string_table.strings))
          % 2 ^ 32;
      off_dt_struct = (56 + as_u32 (length b.mem_reserve * 16)) % 2 ^ 32;
      off_dt_strings =
          ((56 + as_u32 (length b.mem_reserve * 16)) % 2 ^ 32 + as_u32 (length b.struct_buffer))
          % 2 ^ 32;
      off_mem_rsvmap = 56;
      size_dt_strings = as_u32 (length b.string_table.strings);
      size_dt_struct = as_u32 (length b.struct_buffer);
    }

    unwrapped : wrapped ≡ final_header b
    unwrapped = ground arith

slice_middle :
    (front middle back : List ℕ) (offset size : ℕ)
    → offset ≡ length front
    → size ≡ length middle
    → slice offset size (front ++ (middle ++ back)) ≡ middle
slice_middle front middle back offset size e f =
    rw (e, f, drop-append front) (take-append middle back)

length-image :
    (b : StandardFdtBuilder)
    → length (
        blob
          (final_header b)
          (entries b.mem_reserve ++ (b.struct_buffer ++ b.string_table.strings)))
      ≡ image_size b
length-image b =
    grind (arith, length-header (final_header b), length-append, length-entries b.mem_reserve)

-- What stands before the structure block.
front-length :
    (b : StandardFdtBuilder)
    → length (blob (final_header b) (entries b.mem_reserve)) ≡ 56 + length b.mem_reserve * 16
front-length b =
    omega
      (arith, length-header (final_header b) (entries b.mem_reserve), length-entries b.mem_reserve)

struct_slice :
    (b : StandardFdtBuilder)
    → slice (56 + length b.mem_reserve * 16) (length b.struct_buffer) (
        blob
          (final_header b)
          (entries b.mem_reserve ++ (b.struct_buffer ++ b.string_table.strings)))
      ≡ b.struct_buffer
struct_slice b =
    rw (← append_assoc (Header.write_to_buffer (final_header b) []) (entries b.mem_reserve) _)
      (slice_middle _ b.struct_buffer b.string_table.strings _ _ (sym (front-length b)) refl)

strings_slice :
    (b : StandardFdtBuilder)
    → slice
        (56 + length b.mem_reserve * 16 + length b.struct_buffer)
        (length b.string_table.strings)
        (blob
          (final_header b)
          (entries b.mem_reserve ++ (b.struct_buffer ++ b.string_table.strings)))
      ≡ b.string_table.strings
strings_slice b =
    ap (slice _ _) joined
    ∙ slice_middle (front ++ b.struct_buffer) b.string_table.strings [] _ _
        (omega (arith, front-length b, length-append front b.struct_buffer)) refl
  where
    front : List ℕ
    front = blob (final_header b) (entries b.mem_reserve)

    joined :
        blob (final_header b) (entries b.mem_reserve ++ (b.struct_buffer ++ b.string_table.strings))
        ≡ (front ++ b.struct_buffer) ++ (b.string_table.strings ++ [])
    joined = simp (append_assoc, append-nil)

-- An image below 4 GiB with the header's magic number and version is read as its blocks are.
pub read_fdt-finalize :
    (b : StandardFdtBuilder)
    → b.header.magic ≡ fdt_magic
    → b.header.last_comp_version ≡ fdt_last_comp_version
    → image_size b < 2 ^ 32
    → read_fdt (finalize b) ≡ read_block b.string_table.strings b.struct_buffer
read_fdt-finalize b magic version small =
    let h = final_header b in
    let es = entries b.mem_reserve in
    let body = es ++ (b.struct_buffer ++ b.string_table.strings) in
    rw (finalize-parts b small) (
      read_fdt-fields (blob h body) (magic_at h body (omega arith) ∙ ap some magic)
        (total_at h body small ∙ ap some (sym (length-image b)))
        (version_at h body (omega arith) ∙ ap some version) (struct_at h body (omega arith))
        (strings_at h body (omega arith)) (size_strings_at h body (omega arith))
        (size_struct_at h body (omega arith))
      ∙ ap₂ read_block (strings_slice b) (struct_slice b))
