-- ===== src/Fit/Config.antt =====
-- fitimage/src/fit/config.rs: what a FIT image is built from. Texts are their bytes.
use ostool.Prelude.{ℕ, Bool, false, List, [], Option, none, Text}

pub record ComponentConfig : Type 0 where
  pub name : Text
  pub payload : List ℕ
  pub description : Option Text
  pub component_type : Option Text
  pub arch : Option Text
  pub os : Option Text
  pub compression : Bool
  pub load_address : Option ℕ
  pub entry_point : Option ℕ

pub record FitConfiguration : Type 0 where
  pub name : Text
  pub description : Text
  pub kernel : Option Text
  pub fdt : Option Text
  pub ramdisk : Option Text

-- `configurations` is a `HashMap`: the list has its entries in the order in which the map iterates.
pub record FitImageConfig : Type 0 where
  pub description : Text
  pub kernel : Option ComponentConfig
  pub fdt : Option ComponentConfig
  pub ramdisk : Option ComponentConfig
  pub default_config : Option Text
  pub configurations : List (Text × FitConfiguration)

unfoldable pub new_component : Text → List ℕ → ComponentConfig
new_component name payload = record {
  name = name;
  payload = payload;
  description = none;
  component_type = none;
  arch = none;
  os = none;
  compression = false;
  load_address = none;
  entry_point = none;
}

unfoldable pub new_config : Text → FitImageConfig
new_config description = record {
  description = description;
  kernel = none;
  fdt = none;
  ramdisk = none;
  default_config = none;
  configurations = [];
}
