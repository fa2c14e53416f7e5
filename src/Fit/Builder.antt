-- ===== src/Fit/Builder.antt =====
-- fitimage/src/fit/standard_dt_builder.rs and builder.rs. A method that writes is a function from
-- the builder to the builder: none of them fails. The clock is an argument.
pub mod Adds
pub mod Writes
pub mod Tree
pub mod Whole
pub mod Image
pub mod RoundTrip
pub mod Order
pub mod Align
use ostool.Prelude.{
  ℕ, ◌+◌, ◌*◌, ◌%◌, ◌^◌, List, [], ◌∷◌, ◌++◌, Option, none, some, Text, codes, length, as_u32, be32,
  be64, ◌==◌, if◌then◌else◌,
}
use mathlib.Core.Option.{get_or}
use ostool.Fit.StringTable.{StringTable, add_string}
use ostool.Fit.StringTable
use ostool.Fit.Header.{FdtHeader, MemReserveEntry, header_size, entry_size, write_entry}
use ostool.Fit.Header
use ostool.Fit.Tokens.{FdtToken, write_token, write_string, write_prop_header, write_prop_data}
use ostool.Fit.Config.{ComponentConfig, FitConfiguration, FitImageConfig}

pub record StandardFdtBuilder : Type 0 where
  pub header : FdtHeader
  pub string_table : StringTable
  pub struct_buffer : List ℕ
  pub mem_reserve : List MemReserveEntry

unfoldable pub new : StandardFdtBuilder
new = record {
  header = Header.new;
  string_table = StringTable.new;
  struct_buffer = [];
  mem_reserve = [];
}

abbrev pub Write : Type 0
Write = StandardFdtBuilder → StandardFdtBuilder

-- One statement after another.
infixr 6 ◌▸◌
unfoldable pub ◌▸◌ : Write → Write → Write
(f ▸ g) b = g (f b)

unfoldable pub begin_node : Text → Write
begin_node name b = record b {
  struct_buffer = write_string (write_token FdtToken.begin_node b.struct_buffer) name;
}

unfoldable pub end_node : Write
end_node b = record b { struct_buffer = write_token FdtToken.end_node b.struct_buffer }

-- The start of every property: the name goes to the string table, the token and the length with
-- the name's offset to the structure block.
unfoldable pub begin_property : Text → ℕ → Write
begin_property name length b =
    let (table, name_offset) = add_string b.string_table name in
    record b {
      string_table = table;
      struct_buffer =
          write_prop_header (write_token FdtToken.prop b.struct_buffer) length name_offset;
    }

-- `value.len() as u32 + 1`, in wrapping arithmetic.
unfoldable pub add_property_string : Text → Text → Write
add_property_string name value b =
    let b' = begin_property name ((as_u32 (length value) + 1) % 2 ^ 32) b in
    record b' { struct_buffer = write_string b'.struct_buffer value }

unfoldable pub add_property_u32 : Text → ℕ → Write
add_property_u32 name value b =
    let b' = begin_property name 4 b in record b' { struct_buffer = b'.struct_buffer ++ be32 value }

unfoldable pub add_property_u64 : Text → ℕ → Write
add_property_u64 name value b =
    let b' = begin_property name 8 b in record b' { struct_buffer = b'.struct_buffer ++ be64 value }

unfoldable pub add_property_data : Text → List ℕ → Write
add_property_data name payload b =
    let b' = begin_property name (as_u32 (length payload)) b in
    record b' { struct_buffer = write_prop_data b'.struct_buffer payload }

abbrev pub fdt_data_alignment : ℕ
fdt_data_alignment = 8

abbrev pub property_prefix_size : ℕ
property_prefix_size = 12

-- Where in the finished image the value of the next property stands.
abbrev pub data_offset : StandardFdtBuilder → ℕ
data_offset b =
    header_size + length b.mem_reserve * entry_size + length b.struct_buffer + property_prefix_size

unfoldable pub align_fdt_data : Write
align_fdt_data b =
    if data_offset b % fdt_data_alignment == 0
    then b
    else record b { struct_buffer = write_token FdtToken.nop b.struct_buffer }

unfoldable pub add_fdt_property_data : Text → List ℕ → Write
add_fdt_property_data name payload = align_fdt_data ▸ add_property_data name payload

-- `if let Some(x) = o { f(x) }`
unfoldable pub if_some {ℓ} : {A : Type ℓ} → Option A → (A → Write) → Write
if_some none f b = b
if_some (some x) f b = f x b

unfoldable pub compression_property : ComponentConfig → Write
compression_property c =
    if c.compression
    then add_property_string (codes "compression") (codes "gzip")
    else add_property_string (codes "compression") (codes "none")

unfoldable pub load_property : ComponentConfig → Write
load_property c = if_some c.load_address (add_property_u64 (codes "load"))

unfoldable pub add_kernel_image : Text → ComponentConfig → Write
add_kernel_image name c =
    begin_node name
    ▸ add_property_string (codes "description") (get_or c.description (codes "Linux Kernel"))
    ▸ add_property_string (codes "type") (get_or c.component_type (codes "kernel"))
    ▸ add_property_string (codes "arch") (get_or c.arch (codes "arm64"))
    ▸ add_property_string (codes "os") (get_or c.os (codes "linux"))
    ▸ compression_property c
    ▸ load_property c
    ▸ if_some c.entry_point (add_property_u64 (codes "entry"))
    ▸ add_property_data (codes "data") c.payload
    ▸ end_node

unfoldable pub add_fdt_image : Text → ComponentConfig → Write
add_fdt_image name c =
    begin_node name
    ▸ add_property_string (codes "description") (get_or c.description (codes "Device Tree Blob"))
    ▸ add_property_string (codes "type") (get_or c.component_type (codes "flat_dt"))
    ▸ add_property_string (codes "arch") (get_or c.arch (codes "arm64"))
    ▸ compression_property c
    ▸ load_property c
    ▸ add_fdt_property_data (codes "data") c.payload
    ▸ end_node

unfoldable pub add_ramdisk_image : Text → ComponentConfig → Write
add_ramdisk_image name c =
    begin_node name
    ▸ add_property_string (codes "description") (codes "Ramdisk Image")
    ▸ add_property_string (codes "type") (codes "ramdisk")
    ▸ add_property_string (codes "arch") (get_or c.arch (codes "arm64"))
    ▸ add_property_string (codes "os") (get_or c.os (codes "linux"))
    ▸ compression_property c
    ▸ load_property c
    ▸ add_property_data (codes "data") c.payload
    ▸ end_node

unfoldable pub add_images : FitImageConfig → Write
add_images config =
    if_some config.kernel (λ k. add_kernel_image k.name k)
    ▸ if_some config.fdt (λ f. add_fdt_image f.name f)
    ▸ if_some config.ramdisk (λ r. add_ramdisk_image r.name r)

-- The node of the configuration that is made up where none is given, and the reference to it.
unfoldable pub add_default_configuration : FitImageConfig → Write
add_default_configuration config =
    begin_node (codes "config-1")
    ▸ add_property_string (codes "description") (codes "Default configuration")
    ▸ if_some config.kernel (λ k. add_property_string (codes "kernel") k.name)
    ▸ if_some config.fdt (λ f. add_property_string (codes "fdt") f.name)
    ▸ if_some config.ramdisk (λ r. add_property_string (codes "ramdisk") r.name)
    ▸ end_node
    ▸ add_property_string (codes "default") (codes "config-1")

unfoldable pub add_configuration : Text → FitConfiguration → Write
add_configuration config_name val =
    begin_node config_name
    ▸ add_property_string (codes "description") val.description
    ▸ if_some val.kernel (add_property_string (codes "kernel"))
    ▸ if_some val.fdt (add_property_string (codes "fdt"))
    ▸ if_some val.ramdisk (add_property_string (codes "ramdisk"))
    ▸ end_node

unfoldable pub add_each_configuration : List (Text × FitConfiguration) → Write
add_each_configuration [] b = b
add_each_configuration ((n, v) ∷ rest) b = add_each_configuration rest (add_configuration n v b)

unfoldable pub add_configurations : FitImageConfig → Write
add_configurations config = elim config.configurations [
  | [] ↦ add_default_configuration config
  | c ∷ cs ↦
      if_some config.default_config (add_property_string (codes "default"))
      ▸ add_each_configuration (c ∷ cs)
]

unfoldable pub write_end : Write
write_end b = record b { struct_buffer = write_token FdtToken.end b.struct_buffer }

-- `now` is the clock in seconds; it is cut to `u32`.
unfoldable pub build_root_node : ℕ → FitImageConfig → Write
build_root_node now config =
    begin_node []
    ▸ add_property_u32 (codes "timestamp") (as_u32 now)
    ▸ add_property_string (codes "description") config.description
    ▸ add_property_u32 (codes "#address-cells") 2
    ▸ add_property_u32 (codes "#size-cells") 1
    ▸ begin_node (codes "images")
    ▸ add_images config
    ▸ end_node
    ▸ begin_node (codes "configurations")
    ▸ add_configurations config
    ▸ end_node
    ▸ end_node

unfoldable pub build_structure_block : ℕ → FitImageConfig → Write
build_structure_block now config = build_root_node now config ▸ write_end

unfoldable pub add_default_memory_reserve : Write
add_default_memory_reserve b = record b {
  mem_reserve = b.mem_reserve ++ (record { address = 0; size = 0 } ∷ []);
}

unfoldable pub build_fit_tree : ℕ → FitImageConfig → Write
build_fit_tree now config = add_default_memory_reserve ▸ build_structure_block now config

unfoldable pub write_entries : List MemReserveEntry → List ℕ → List ℕ
write_entries [] buffer = buffer
write_entries (e ∷ es) buffer = write_entries es (write_entry e buffer)

-- The sums are of `u32`s, in wrapping arithmetic.
unfoldable pub finalize : StandardFdtBuilder → List ℕ
finalize b =
    let mem_rsvmap_size = as_u32 (length b.mem_reserve * entry_size) in
    let struct_size = as_u32 (length b.struct_buffer) in
    let strings_size = as_u32 (StringTable.size b.string_table) in
    let off_dt_struct = (header_size + mem_rsvmap_size) % 2 ^ 32 in
    let off_dt_strings = (off_dt_struct + struct_size) % 2 ^ 32 in
    let total_size = (off_dt_strings + strings_size) % 2 ^ 32 in
    let header =
      Header.finalize b.header total_size off_dt_struct off_dt_strings header_size strings_size
        struct_size in
    write_entries b.mem_reserve (Header.write_to_buffer header [])
    ++ (b.struct_buffer ++ StringTable.finalize b.string_table)
