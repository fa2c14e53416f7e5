-- ===== src/Fit/Builder/Whole.antt =====
-- The images, the configurations and the whole tree.
use ostool.Prelude.{
  ℕ, ◌≡◌, refl, List, [], ◌∷◌, ◌++◌, Option, none, some, Text, codes, All, as_u32, be32, arith,
  append_assoc,
}
use ostool.Fit.Config.{ComponentConfig, FitConfiguration, FitImageConfig}
use ostool.Fit.Reader.{NoNul, Item, property}
use ostool.Fit.Builder.{
  add_fdt_image, add_ramdisk_image, add_images, add_default_configuration, add_configuration,
  add_each_configuration, add_configurations, if_some, add_property_string, build_root_node, ◌▸◌,
  Write,
}
use ostool.Fit.Builder.Adds.{Adds, Adds-begin_node, Adds-end_node}
use ostool.Fit.Builder.Writes.{
  Adds-string, Adds-u32, Adds-data, Adds-fdt_data, Adds-▸, Adds-if_some, Adds-skip, optional,
}
use ostool.Fit.Builder.Tree.{
  text_property, node, optional_text, kernel_tree, fdt_tree, ramdisk_tree, Adds-eq,
  Adds-compression, Adds-load, Adds-optional_text, Adds-kernel_image,
}

Adds-fdt_image :
    (name : Text) (c : ComponentConfig) → NoNul name → Adds (add_fdt_image name c) (fdt_tree name c)
unfolding add_fdt_image
Adds-fdt_image name c h = Adds-eq (simp append_assoc) (
    Adds-▸ _ _ (Adds-begin_node name h) (
      Adds-▸ _ _ (Adds-string (codes "description") _ (omega arith)) (
        Adds-▸ _ _ (Adds-string (codes "type") _ (omega arith)) (
          Adds-▸ _ _ (Adds-string (codes "arch") _ (omega arith)) (
            Adds-▸ _ _ (Adds-compression c) (
              Adds-▸ _ _ (Adds-load c) (
                Adds-▸ _ _ (Adds-fdt_data (codes "data") c.payload (omega arith))
                  Adds-end_node)))))))

Adds-ramdisk_image :
    (name : Text) (c : ComponentConfig)
    → NoNul name
    → Adds (add_ramdisk_image name c) (ramdisk_tree name c)
unfolding add_ramdisk_image
Adds-ramdisk_image name c h = Adds-eq (simp append_assoc) (
    Adds-▸ _ _ (Adds-begin_node name h) (
      Adds-▸ _ _ (Adds-string (codes "description") _ (omega arith)) (
        Adds-▸ _ _ (Adds-string (codes "type") _ (omega arith)) (
          Adds-▸ _ _ (Adds-string (codes "arch") _ (omega arith)) (
            Adds-▸ _ _ (Adds-string (codes "os") _ (omega arith)) (
              Adds-▸ _ _ (Adds-compression c) (
                Adds-▸ _ _ (Adds-load c) (
                  Adds-▸ _ _ (Adds-data (codes "data") c.payload (omega arith))
                    Adds-end_node))))))))

-- A component whose name can stand in the format, or none.
abbrev pub Named : Option ComponentConfig → Type 0
Named none = Unit {0}
Named (some c) = NoNul c.name

-- The names that become node names have no NUL.
pub record HasNames (config : FitImageConfig) : Type 0 where
  pub kernel_named : Named config.kernel
  pub fdt_named : Named config.fdt
  pub ramdisk_named : Named config.ramdisk
  pub configurations_named : All (λ e. NoNul e.0) config.configurations

unfoldable pub image_trees : FitImageConfig → List Item
image_trees config =
    optional config.kernel (λ k. kernel_tree k.name k)
    ++ (optional config.fdt (λ f. fdt_tree f.name f)
        ++ optional config.ramdisk (λ r. ramdisk_tree r.name r))

Adds-component :
    (o : Option ComponentConfig) (f : Text → ComponentConfig → Write)
    (items : Text → ComponentConfig → List Item)
    → ((name : Text) (c : ComponentConfig) → NoNul name → Adds (f name c) (items name c))
    → Named o
    → Adds (if_some o (λ c. f c.name c)) (optional o (λ c. items c.name c))
unfolding if_some optional
Adds-component none f items h named = Adds-skip
Adds-component (some c) f items h named = h c.name c named

Adds-images :
    (config : FitImageConfig) → HasNames config → Adds (add_images config) (image_trees config)
unfolding add_images image_trees
Adds-images config h =
    Adds-▸ _ _ (Adds-component config.kernel _ _ Adds-kernel_image h.kernel_named) (
      Adds-▸ _ _ (Adds-component config.fdt _ _ Adds-fdt_image h.fdt_named)
        (Adds-component config.ramdisk _ _ Adds-ramdisk_image h.ramdisk_named))

-- The node that a configuration becomes.
abbrev pub configuration_properties : FitConfiguration → List Item
configuration_properties v =
    text_property (codes "description") v.description
    ∷ (optional_text (codes "kernel") v.kernel
        ++ (optional_text (codes "fdt") v.fdt ++ optional_text (codes "ramdisk") v.ramdisk))

abbrev pub configuration_tree : Text → FitConfiguration → List Item
configuration_tree name v = node name (configuration_properties v)

abbrev pub configuration_trees : List (Text × FitConfiguration) → List Item
configuration_trees [] = []
configuration_trees ((n, v) ∷ rest) = configuration_tree n v ++ configuration_trees rest

abbrev pub component_name : Text → Option ComponentConfig → List Item
component_name name o = optional o (λ c. text_property name c.name ∷ [])

-- With no configuration given: one that has every component, and after it the default.
abbrev pub default_properties : FitImageConfig → List Item
default_properties config =
    text_property (codes "description") (codes "Default configuration")
    ∷ (component_name (codes "kernel") config.kernel
        ++ (component_name (codes "fdt") config.fdt
            ++ component_name (codes "ramdisk") config.ramdisk))

abbrev pub default_trees : FitImageConfig → List Item
default_trees config =
    node (codes "config-1") (default_properties config)
    ++ (text_property (codes "default") (codes "config-1") ∷ [])

unfoldable pub configurations_tree : FitImageConfig → List Item
configurations_tree config = elim config.configurations [
  | [] ↦ default_trees config
  | c ∷ cs ↦ optional_text (codes "default") config.default_config ++ configuration_trees (c ∷ cs)
]

Adds-configuration :
    (name : Text) (v : FitConfiguration)
    → NoNul name
    → Adds (add_configuration name v) (configuration_tree name v)
unfolding add_configuration
Adds-configuration name v h = Adds-eq (simp append_assoc) (
    Adds-▸ _ _ (Adds-begin_node name h) (
      Adds-▸ _ _ (Adds-string (codes "description") _ (omega arith)) (
        Adds-▸ _ _ (Adds-optional_text (codes "kernel") v.kernel (omega arith)) (
          Adds-▸ _ _ (Adds-optional_text (codes "fdt") v.fdt (omega arith)) (
            Adds-▸ _ _ (Adds-optional_text (codes "ramdisk") v.ramdisk (omega arith))
              Adds-end_node)))))

Adds-each_configuration :
    (cs : List (Text × FitConfiguration))
    → All (λ e. NoNul e.0) cs
    → Adds (add_each_configuration cs) (configuration_trees cs)
unfolding add_each_configuration ◌▸◌
Adds-each_configuration [] h = Adds-skip
Adds-each_configuration ((n, v) ∷ rest) h =
    Adds-▸ _ _ (Adds-configuration n v h.0) (Adds-each_configuration rest h.1)

Adds-default_configuration :
    (config : FitImageConfig) → Adds (add_default_configuration config) (default_trees config)
unfolding add_default_configuration
Adds-default_configuration config = Adds-eq (simp append_assoc) (
    Adds-▸ _ _ (Adds-begin_node (codes "config-1") (omega arith)) (
      Adds-▸ _ _ (Adds-string (codes "description") _ (omega arith)) (
        Adds-▸ _ _ (name_of (codes "kernel") config.kernel (omega arith)) (
          Adds-▸ _ _ (name_of (codes "fdt") config.fdt (omega arith)) (
            Adds-▸ _ _ (name_of (codes "ramdisk") config.ramdisk (omega arith)) (
              Adds-▸ _ _ Adds-end_node
                (Adds-string (codes "default") (codes "config-1") (omega arith))))))))
  where
    name_of :
        (name : Text) (o : Option ComponentConfig)
        → NoNul name
        → Adds (if_some o (λ c. add_property_string name c.name)) (component_name name o)
    name_of name o h = Adds-if_some o _ _ (λ c. Adds-string name c.name h)

Adds-configurations_of :
    (config : FitImageConfig) (cs : List (Text × FitConfiguration))
    → config.configurations ≡ cs
    → All (λ e. NoNul e.0) cs
    → Adds (add_configurations config) (configurations_tree config)
unfolding add_configurations configurations_tree
Adds-configurations_of config [] e h =
    rw (e, add_configurations, configurations_tree) (Adds-default_configuration config)
Adds-configurations_of config (c ∷ cs) e h =
    rw (e, add_configurations, configurations_tree)
      (Adds-▸ _ _ (Adds-optional_text (codes "default") config.default_config (omega arith))
        (Adds-each_configuration (c ∷ cs) h))

-- The whole tree, without the end token.
unfoldable pub fit_tree : ℕ → FitImageConfig → List Item
fit_tree now config = node [] (
    property (codes "timestamp") (be32 (as_u32 now))
    ∷ text_property (codes "description") config.description
    ∷ property (codes "#address-cells") (be32 2)
    ∷ property (codes "#size-cells") (be32 1)
    ∷ (node (codes "images") (image_trees config)
        ++ node (codes "configurations") (configurations_tree config)))

pub Adds-root :
    (now : ℕ) (config : FitImageConfig)
    → HasNames config
    → Adds (build_root_node now config) (fit_tree now config)
unfolding build_root_node fit_tree
Adds-root now config h = Adds-eq (simp append_assoc) (
    Adds-▸ _ _ (Adds-begin_node [] tt) (
      Adds-▸ _ _ (Adds-u32 (codes "timestamp") (as_u32 now) (omega arith)) (
        Adds-▸ _ _ (Adds-string (codes "description") config.description (omega arith)) (
          Adds-▸ _ _ (Adds-u32 (codes "#address-cells") 2 (omega arith)) (
            Adds-▸ _ _ (Adds-u32 (codes "#size-cells") 1 (omega arith)) (
              Adds-▸ _ _ (Adds-begin_node (codes "images") (omega arith)) (
                Adds-▸ _ _ (Adds-images config h) (
                  Adds-▸ _ _ Adds-end_node (
                    Adds-▸ _ _ (Adds-begin_node (codes "configurations") (omega arith)) (
                      Adds-▸ _ _
                        (Adds-configurations_of config config.configurations refl
                          h.configurations_named)
                        (Adds-▸ _ _ Adds-end_node Adds-end_node)))))))))))
