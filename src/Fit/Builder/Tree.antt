-- ===== src/Fit/Builder/Tree.antt =====
-- The tree that a FIT image is to hold for a configuration, and that the builder's methods write it.
use ostool.Prelude.{
  ℕ, ◌≡◌, List, [], ◌∷◌, ◌++◌, Option, Text, codes, be64, arith, append_assoc, if◌then◌else◌,
  Bool-cases, inl, inr,
}
use mathlib.Core.Option.{get_or}
use ostool.Fit.Config.{ComponentConfig}
use ostool.Fit.Reader.{NoNul, Item, open_node, close_node, property}
use ostool.Fit.Builder.{
  Write, compression_property, load_property, add_kernel_image, if_some, add_property_string,
  add_property_u64,
}
use ostool.Fit.Builder.Adds.{Adds, Adds-begin_node, Adds-end_node}
use ostool.Fit.Builder.Writes.{Adds-string, Adds-u64, Adds-data, Adds-▸, Adds-if_some, optional}

abbrev pub text_property : Text → Text → Item
text_property name value = property name (value ++ (0 ∷ []))

abbrev pub node : Text → List Item → List Item
node name body = open_node name ∷ (body ++ (close_node ∷ []))

abbrev pub optional_text : Text → Option Text → List Item
optional_text name o = optional o (λ value. text_property name value ∷ [])

abbrev pub optional_address : Text → Option ℕ → List Item
optional_address name o = optional o (λ address. property name (be64 address) ∷ [])

abbrev pub compression_item : ComponentConfig → Item
compression_item c =
    text_property (codes "compression") (if c.compression then codes "gzip" else codes "none")

abbrev pub kernel_properties : ComponentConfig → List Item
kernel_properties c =
    text_property (codes "description") (get_or c.description (codes "Linux Kernel"))
    ∷ text_property (codes "type") (get_or c.component_type (codes "kernel"))
    ∷ text_property (codes "arch") (get_or c.arch (codes "arm64"))
    ∷ text_property (codes "os") (get_or c.os (codes "linux"))
    ∷ compression_item c
    ∷ (optional_address (codes "load") c.load_address
        ++ (optional_address (codes "entry") c.entry_point
            ++ (property (codes "data") c.payload ∷ [])))

abbrev pub kernel_tree : Text → ComponentConfig → List Item
kernel_tree name c = node name (kernel_properties c)

abbrev pub fdt_properties : ComponentConfig → List Item
fdt_properties c =
    text_property (codes "description") (get_or c.description (codes "Device Tree Blob"))
    ∷ text_property (codes "type") (get_or c.component_type (codes "flat_dt"))
    ∷ text_property (codes "arch") (get_or c.arch (codes "arm64"))
    ∷ compression_item c
    ∷ (optional_address (codes "load") c.load_address ++ (property (codes "data") c.payload ∷ []))

abbrev pub fdt_tree : Text → ComponentConfig → List Item
fdt_tree name c = node name (fdt_properties c)

abbrev pub ramdisk_properties : ComponentConfig → List Item
ramdisk_properties c =
    text_property (codes "description") (codes "Ramdisk Image")
    ∷ text_property (codes "type") (codes "ramdisk")
    ∷ text_property (codes "arch") (get_or c.arch (codes "arm64"))
    ∷ text_property (codes "os") (get_or c.os (codes "linux"))
    ∷ compression_item c
    ∷ (optional_address (codes "load") c.load_address ++ (property (codes "data") c.payload ∷ []))

abbrev pub ramdisk_tree : Text → ComponentConfig → List Item
ramdisk_tree name c = node name (ramdisk_properties c)

pub Adds-eq : {f : Write} {xs ys : List Item} → xs ≡ ys → Adds f xs → Adds f ys
Adds-eq e a = rw e at a

pub Adds-compression :
    (c : ComponentConfig) → Adds (compression_property c) (compression_item c ∷ [])
unfolding compression_property
Adds-compression c = elim (Bool-cases c.compression) [
  | inl on ↦ rw on (Adds-string (codes "compression") (codes "gzip") (omega arith))
  | inr off ↦ rw off (Adds-string (codes "compression") (codes "none") (omega arith))
]

Adds-address :
    (name : Text) (o : Option ℕ)
    → NoNul name
    → Adds (if_some o (add_property_u64 name)) (optional_address name o)
Adds-address name o h = Adds-if_some o _ _ (λ a. Adds-u64 name a h)

pub Adds-optional_text :
    (name : Text) (o : Option Text)
    → NoNul name
    → Adds (if_some o (add_property_string name)) (optional_text name o)
Adds-optional_text name o h = Adds-if_some o _ _ (λ v. Adds-string name v h)

pub Adds-load :
    (c : ComponentConfig) → Adds (load_property c) (optional_address (codes "load") c.load_address)
unfolding load_property
Adds-load c = Adds-address (codes "load") c.load_address (omega arith)

pub Adds-kernel_image :
    (name : Text) (c : ComponentConfig)
    → NoNul name
    → Adds (add_kernel_image name c) (kernel_tree name c)
unfolding add_kernel_image
Adds-kernel_image name c h = Adds-eq (simp append_assoc) (
    Adds-▸ _ _ (Adds-begin_node name h) (
      Adds-▸ _ _ (Adds-string (codes "description") _ (omega arith)) (
        Adds-▸ _ _ (Adds-string (codes "type") _ (omega arith)) (
          Adds-▸ _ _ (Adds-string (codes "arch") _ (omega arith)) (
            Adds-▸ _ _ (Adds-string (codes "os") _ (omega arith)) (
              Adds-▸ _ _ (Adds-compression c) (
                Adds-▸ _ _ (Adds-load c) (
                  Adds-▸ _ _ (Adds-address (codes "entry") c.entry_point (omega arith)) (
                    Adds-▸ _ _ (Adds-data (codes "data") c.payload (omega arith))
                      Adds-end_node)))))))))
