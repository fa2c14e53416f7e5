-- ===== src/Tests/Fit.antt =====
-- fitimage: a small image with a compressed kernel and a nested device tree.
use ostool.Prelude.{
  text_eq, text_lt, ℕ, ◌^◌, ◌<◌, ◌≡◌, refl, List, [], ◌∷◌, some, true, false, Text, codes, arith,
}
use ostool.Prelude.Map.{AllEntries}
use ostool.Fit.Config.{ComponentConfig, FitImageConfig, new_component, new_config}
use ostool.Fit.Reader.{read_fdt}
use ostool.Fit.Header.{FdtHeader, fdt_magic, fdt_last_comp_version, header_size, validate, valid}
use ostool.Fit.Header
use ostool.Fit.StringTable
use ostool.Fit.StringTable.Laws.{Stands, add_all, add_all-Stands}
use ostool.Fit.Builder.{
  new, finalize, build_fit_tree, add_default_memory_reserve, build_structure_block, build_root_node,
  begin_node, end_node, begin_property, add_property_string, add_property_u32, add_property_u64,
  add_property_data, align_fdt_data, add_fdt_property_data, if_some, compression_property,
  load_property, add_kernel_image, add_fdt_image, add_ramdisk_image, add_images,
  add_default_configuration, add_configuration, add_each_configuration, add_configurations,
  write_end, ◌▸◌,
}
use ostool.Fit.Builder.Image.{image_size}
use ostool.Fit.Tokens.{
  write_token, write_string, write_prop_data, write_prop_header, pad_to_alignment,
}
use ostool.Fit.StringTable.{add_string}
use ostool.Prelude.Map.{lookup, insert}
use ostool.Fit.Builder.Align.{PutsAligned, add_fdt_property_data-PutsAligned}
use ostool.Fit.Builder.Whole.{HasNames, fit_tree}
use ostool.Fit.Builder.RoundTrip.{built, read_fdt-build}
use ostool.Fit.Reader.{Item}
use ostool.Fit.Builder.Order.{properties_first, has_configurations, build_fit_tree-properties_first}
use ostool.Fit.Image.{Result, ok, build}
use ostool.Prelude.{inl, inr}
use ostool.Fit.Image.Laws.{packed_config, build-reads}

abbrev kernel : ComponentConfig
unfolding new_component
kernel = record (new_component (codes "kernel") (1 ∷ 2 ∷ 3 ∷ [])) {
  compression = true;
  load_address = some 0x80080000;
}

abbrev device_tree : ComponentConfig
unfolding new_component
device_tree = new_component (codes "fdt") (6 ∷ 7 ∷ [])

abbrev sample : FitImageConfig
unfolding new_config
sample = record (new_config (codes "Test")) { kernel = some kernel; fdt = some device_tree }

-- Stands for the compressor.
abbrev pack : List ℕ → Result Text (List ℕ)
pack xs = ok (0x1f ∷ 0x8b ∷ xs)

-- What it makes of the data of a component.
abbrev packed_bytes : List ℕ → List ℕ
packed_bytes xs = 0x1f ∷ 0x8b ∷ xs

abbrev packed : FitImageConfig
packed = packed_config packed_bytes sample

sample-packed :
    packed
    ≡ record sample { kernel = some (record kernel { payload = 0x1f ∷ 0x8b ∷ 1 ∷ 2 ∷ 3 ∷ [] }) }
unfolding new_config new_component
sample-packed = refl

sample-HasNames : HasNames sample
unfolding new_config new_component
sample-HasNames = record {
  kernel_named = omega arith;
  fdt_named = omega arith;
  ramdisk_named = tt;
  configurations_named = tt;
}

packed_size : ℕ
unfolding new_config new_component build_fit_tree add_default_memory_reserve build_structure_block
    build_root_node begin_node end_node begin_property add_property_string add_property_u32
    add_property_u64 add_property_data align_fdt_data add_fdt_property_data if_some
    compression_property load_property add_kernel_image add_fdt_image add_ramdisk_image add_images
    add_default_configuration add_configuration add_each_configuration add_configurations write_end
    new Header.new StringTable.new add_string lookup insert text_eq text_lt write_token write_string
    write_prop_data write_prop_header pad_to_alignment ◌▸◌
packed_size = image_size (built 5 packed)

packed-small : packed_size < 2 ^ 32
unfolding packed_size
packed-small = omega arith

build-reads_example :
    (image : List ℕ) × (build pack 5 sample ≡ ok image)
    × (read_fdt image ≡ some (fit_tree 5 packed))
unfolding packed_size new_config new_component
build-reads_example =
    build-reads pack packed_bytes 5 sample (inr refl) (inl refl) tt sample-HasNames packed-small

read_fdt-build_example : read_fdt (finalize (built 5 sample)) ≡ some (fit_tree 5 sample)
unfolding packed_size
read_fdt-build_example = read_fdt-build 5 sample sample-HasNames (omega arith)

build_fit_tree-properties_first_example :
    (tree : List Item) × (read_fdt (finalize (build_fit_tree 5 sample new)) ≡ some tree)
    × (properties_first [] tree ≡ has_configurations sample)
unfolding packed_size
build_fit_tree-properties_first_example =
    build_fit_tree-properties_first 5 sample sample-HasNames (omega arith)

no_configuration : has_configurations sample ≡ false
unfolding new_config
no_configuration = refl

add_fdt_property_data-PutsAligned_example :
    PutsAligned new (add_fdt_property_data (codes "data") (6 ∷ 7 ∷ []) new) (6 ∷ 7 ∷ [])
unfolding packed_size
add_fdt_property_data-PutsAligned_example =
    add_fdt_property_data-PutsAligned new (codes "data") (6 ∷ 7 ∷ []) refl

abbrev names : List Text
names = codes "data" ∷ codes "arch" ∷ codes "data" ∷ []

add_all-Stands_example :
    AllEntries (Stands (add_all StringTable.new names).0.strings) (add_all StringTable.new names).1
unfolding packed_size add_all
add_all-Stands_example = add_all-Stands names (omega arith) (omega arith)
