-- ===== src/Fit/Builder/Order.antt =====
-- The order of the items within a node. A boot loader's library looks for a node's properties
-- before the first child node only.
use ostool.Prelude.{
  ℕ, ◌^◌, ◌<◌, ◌≡◌, All, refl, ap, ◌∙◌, All-append, List, [], ◌∷◌, ◌++◌, Option, none, some, Bool,
  true, false, not, ◌&&◌, Text, codes, arith, append_assoc, if◌then◌else◌,
}
use ostool.Fit.Config.{ComponentConfig, FitConfiguration, FitImageConfig}
use ostool.Fit.Reader.{read_fdt, Item, open_node, close_node, property}
use ostool.Fit.Builder.{new, build_fit_tree, finalize}
use ostool.Fit.Builder.Image.{image_size}
use ostool.Fit.Builder.RoundTrip.{read_fdt-build}
use ostool.Fit.Builder.Writes.{optional}
use ostool.Fit.Builder.Tree.{
  text_property, node, optional_text, optional_address, kernel_tree, fdt_tree, ramdisk_tree,
  kernel_properties, fdt_properties, ramdisk_properties,
}
use ostool.Fit.Builder.Whole.{
  HasNames, image_trees, configuration_tree, configuration_trees, component_name, default_trees,
  configurations_tree, fit_tree, configuration_properties, default_properties,
}

-- For each open node, innermost first, whether it has had a child.
abbrev mark : List Bool → List Bool
mark [] = []
mark (b ∷ bs) = true ∷ bs

-- No property stands behind a child of its node.
pub properties_first : List Bool → List Item → Bool
properties_first st [] = true
properties_first st (open_node n ∷ is) = properties_first (false ∷ mark st) is
properties_first [] (close_node ∷ is) = false
properties_first (b ∷ bs) (close_node ∷ is) = properties_first bs is
properties_first [] (property n v ∷ is) = false
properties_first (b ∷ bs) (property n v ∷ is) = not b && properties_first (b ∷ bs) is

abbrev IsProperty : Item → Type 0
IsProperty (open_node n) = ⊥
IsProperty close_node = ⊥
IsProperty (property n v) = Unit {0}

abbrev Plain : List Item → Type 0
Plain = All IsProperty

-- A sequence of whole nodes: afterwards the parent has had a child, if there was any.
abbrev Nodes : List Item → Type 0
Nodes xs =
    (b : Bool) (st : List Bool) (rest : List Item)
    → (b' : Bool) × (properties_first (b ∷ st) (xs ++ rest) ≡ properties_first (b' ∷ st) rest)

-- Properties are passed by, in a node that has had no child yet.
pass_Plain :
    (xs : List Item) (st : List Bool) (rest : List Item)
    → Plain xs
    → properties_first (false ∷ st) (xs ++ rest) ≡ properties_first (false ∷ st) rest
unfolding properties_first
pass_Plain [] st rest h = refl
pass_Plain (open_node n ∷ xs) st rest h = absurd h.0
pass_Plain (close_node ∷ xs) st rest h = absurd h.0
pass_Plain (property n v ∷ xs) st rest h = pass_Plain xs st rest h.1

Plain-append : (xs ys : List Item) → Plain xs → Plain ys → Plain (xs ++ ys)
Plain-append xs ys h k = All-append IsProperty xs ys h k

Plain-optional {ℓ} :
    {A : Type ℓ} (o : Option A) (name : Text) (value : A → List ℕ)
    → Plain (optional o (λ x. property name (value x) ∷ []))
unfolding optional
Plain-optional none name value = tt
Plain-optional (some x) name value = (tt, tt)

-- A node with nothing but properties is passed, and is a child.
node-Plain :
    (name : Text) (body : List Item) (st : List Bool) (rest : List Item)
    → Plain body
    → properties_first st (node name body ++ rest) ≡ properties_first (mark st) rest
unfolding properties_first
node-Plain name body st rest h =
    ap (properties_first (false ∷ mark st)) (append_assoc body (close_node ∷ []) rest)
    ∙ pass_Plain body (mark st) (close_node ∷ rest) h

Nodes-node : (name : Text) (body : List Item) → Plain body → Nodes (node name body)
Nodes-node name body h b st rest = (true, node-Plain name body (b ∷ st) rest h)

Nodes-append : (xs ys : List Item) → Nodes xs → Nodes ys → Nodes (xs ++ ys)
Nodes-append xs ys h k b st rest =
    let (b1, e1) = h b st (ys ++ rest) in
    let (b2, e2) = k b1 st rest in (b2, rw (append_assoc xs ys rest) (e1 ∙ e2))

Nodes-optional {ℓ} :
    {A : Type ℓ} (o : Option A) (items : A → List Item)
    → ((x : A) → Nodes (items x))
    → Nodes (optional o items)
unfolding optional
Nodes-optional none items h b st rest = (b, refl)
Nodes-optional (some x) items h b st rest = h x b st rest

load_and_data-Plain :
    (c : ComponentConfig)
    → Plain
        (optional_address (codes "load") c.load_address ++ (property (codes "data") c.payload ∷ []))
load_and_data-Plain c =
    Plain-append (optional_address (codes "load") c.load_address) _
      (Plain-optional c.load_address _ _) (tt, tt)

kernel_addresses-Plain :
    (c : ComponentConfig)
    → Plain (
        optional_address (codes "load") c.load_address
        ++ (optional_address (codes "entry") c.entry_point
            ++ (property (codes "data") c.payload ∷ [])))
kernel_addresses-Plain c =
    Plain-append (optional_address (codes "load") c.load_address) _
      (Plain-optional c.load_address _ _)
      (Plain-append (optional_address (codes "entry") c.entry_point) _
        (Plain-optional c.entry_point _ _) (tt, tt))

Nodes-kernel : (c : ComponentConfig) → Nodes (kernel_tree c.name c)
Nodes-kernel c =
    Nodes-node c.name (kernel_properties c) (tt, (tt, (tt, (tt, (tt, kernel_addresses-Plain c)))))

Nodes-fdt : (c : ComponentConfig) → Nodes (fdt_tree c.name c)
Nodes-fdt c = Nodes-node c.name (fdt_properties c) (tt, (tt, (tt, (tt, load_and_data-Plain c))))

Nodes-ramdisk : (c : ComponentConfig) → Nodes (ramdisk_tree c.name c)
Nodes-ramdisk c =
    Nodes-node c.name (ramdisk_properties c) (tt, (tt, (tt, (tt, (tt, load_and_data-Plain c)))))

Nodes-images : (config : FitImageConfig) → Nodes (image_trees config)
unfolding image_trees
Nodes-images config =
    Nodes-append (optional config.kernel (λ k. kernel_tree k.name k)) _
      (Nodes-optional config.kernel _ Nodes-kernel)
      (Nodes-append (optional config.fdt (λ f. fdt_tree f.name f)) _
        (Nodes-optional config.fdt _ Nodes-fdt) (Nodes-optional config.ramdisk _ Nodes-ramdisk))

-- A node whose children come last.
node-Nodes :
    (name : Text) (props children : List Item) (st : List Bool) (rest : List Item)
    → Plain props
    → Nodes children
    → properties_first st (node name (props ++ children) ++ rest) ≡ properties_first (mark st) rest
unfolding properties_first
node-Nodes name props children st rest h k =
    let (b, e) = k false (mark st) (close_node ∷ rest) in
    let grouped : (props ++ children ++ (close_node ∷ [])) ++ rest
        ≡ props ++ (children ++ (close_node ∷ rest)) =
      simp append_assoc in
    ap (properties_first (false ∷ mark st)) grouped
    ∙ pass_Plain props (mark st) (children ++ (close_node ∷ rest)) h
    ∙ e

Plain-names :
    (k f r : Option Text)
    → Plain (
        optional_text (codes "kernel") k
        ++ (optional_text (codes "fdt") f ++ optional_text (codes "ramdisk") r))
Plain-names k f r =
    Plain-append (optional_text (codes "kernel") k) _ (Plain-optional k _ _)
      (Plain-append (optional_text (codes "fdt") f) _ (Plain-optional f _ _) (Plain-optional r _ _))

Plain-component_names :
    (k f r : Option ComponentConfig)
    → Plain (
        component_name (codes "kernel") k
        ++ (component_name (codes "fdt") f ++ component_name (codes "ramdisk") r))
Plain-component_names k f r =
    Plain-append (component_name (codes "kernel") k) _ (Plain-optional k _ _) (
      Plain-append (component_name (codes "fdt") f) _ (Plain-optional f _ _) (Plain-optional r _ _))

Nodes-configurations : (cs : List (Text × FitConfiguration)) → Nodes (configuration_trees cs)
Nodes-configurations [] b st rest = (b, refl)
Nodes-configurations ((n, v) ∷ cs) b st rest =
    Nodes-append (configuration_tree n v) (configuration_trees cs)
      (Nodes-node n (configuration_properties v) (tt, Plain-names v.kernel v.fdt v.ramdisk))
      (Nodes-configurations cs) b st rest

-- Whether the configurations node has its properties first.
abbrev pub has_configurations : FitImageConfig → Bool
has_configurations config = elim config.configurations [ [] ↦ false | c ∷ cs ↦ true ]

default_last :
    (config : FitImageConfig) (st : List Bool) (rest : List Item)
    → properties_first st (node (codes "configurations") (default_trees config) ++ rest) ≡ false
unfolding properties_first
default_last config st rest =
    let grouped : (default_trees config ++ (close_node ∷ [])) ++ rest
        ≡ node (codes "config-1") (default_properties config)
          ++ (text_property (codes "default") (codes "config-1") ∷ close_node ∷ rest) =
      simp append_assoc in
    ap (properties_first (false ∷ mark st)) grouped
    ∙ node-Plain (codes "config-1") (default_properties config) (false ∷ mark st) _
        (tt, Plain-component_names config.kernel config.fdt config.ramdisk)

configurations_none :
    (config : FitImageConfig)
    → config.configurations ≡ []
    → (configurations_tree config ≡ default_trees config) × (has_configurations config ≡ false)
unfolding configurations_tree
configurations_none config e = (ground arith, ground arith)

configurations_some :
    (config : FitImageConfig) (c : Text × FitConfiguration) (cs : List (Text × FitConfiguration))
    → config.configurations ≡ c ∷ cs
    → (configurations_tree config
        ≡ optional_text (codes "default") config.default_config ++ configuration_trees (c ∷ cs))
      × (has_configurations config ≡ true)
unfolding configurations_tree
configurations_some config c cs e = (ground arith, ground arith)

configurations_of :
    (config : FitImageConfig) (cs : List (Text × FitConfiguration)) (st : List Bool)
    (rest : List Item)
    → config.configurations ≡ cs
    → properties_first st (node (codes "configurations") (configurations_tree config) ++ rest)
      ≡ (if has_configurations config then properties_first (mark st) rest else false)
configurations_of config [] st rest e =
    let (tree, has) = configurations_none config e in rw (tree, has) (default_last config st rest)
configurations_of config (c ∷ cs) st rest e =
    let (tree, has) = configurations_some config c cs e in
    rw (tree, has)
      (node-Nodes (codes "configurations") (optional_text (codes "default") config.default_config)
        (configuration_trees (c ∷ cs)) st rest (Plain-optional config.default_config _ _)
        (Nodes-configurations (c ∷ cs)))

-- The order in the tree of the configuration.
fit_tree-properties_first :
    (now : ℕ) (config : FitImageConfig)
    → properties_first [] (fit_tree now config) ≡ has_configurations config
unfolding fit_tree properties_first
fit_tree-properties_first now config =
    let rest = node (codes "configurations") (configurations_tree config) in
    let grouped : (node (codes "images") (image_trees config) ++ rest) ++ (close_node ∷ [])
        ≡ node (codes "images") (image_trees config) ++ (rest ++ (close_node ∷ [])) =
      append_assoc (node (codes "images") (image_trees config)) rest _ in
    ap (properties_first (false ∷ [])) grouped
    ∙ node-Nodes (codes "images") [] (image_trees config) (false ∷ []) (rest ++ (close_node ∷ []))
        tt (Nodes-images config)
    ∙ configurations_of config config.configurations (true ∷ []) (close_node ∷ []) refl
    ∙ closing (has_configurations config)
  where
    closing : (b : Bool) → (if b then properties_first (true ∷ []) (close_node ∷ []) else false) ≡ b
    closing true = refl
    closing false = refl

-- A configuration whose node names have no NUL, built into an image below 4 GiB: in the tree that a
-- boot loader reads from the finished image every node has its properties before its children exactly
-- when the configuration names a configuration.
pub build_fit_tree-properties_first :
    (now : ℕ) (config : FitImageConfig)
    → HasNames config
    → image_size (build_fit_tree now config new) < 2 ^ 32
    → (tree : List Item) × (read_fdt (finalize (build_fit_tree now config new)) ≡ some tree)
      × (properties_first [] tree ≡ has_configurations config)
build_fit_tree-properties_first now config h small =
    (fit_tree now config, read_fdt-build now config h small, fit_tree-properties_first now config)
