-- ===== src/Fit/Image.antt =====
-- fitimage/src/fit/builder.rs: compression of the components, then the tree. The compressor is not
-- modelled: it is a parameter that may fail with an error of any kind.
pub mod Laws
use ostool.Prelude.{ℕ, List, Option, none, some, Bool, true, false, if◌then◌else◌}
use ostool.Fit.Config.{ComponentConfig, FitImageConfig}
use ostool.Fit.Builder.{new, build_fit_tree, finalize}

pub data Result {ℓ κ} (E : Type ℓ) (A : Type κ) : Type (ℓ ⊔ κ) where
  ok : A → Result E A
  err : E → Result E A

infixl 5 ◌>>=◌
abbrev pub ◌>>=◌ {ℓ κ μ} :
    {E : Type ℓ} {A : Type κ} {B : Type μ} → Result E A → (A → Result E B) → Result E B
ok a >>= f = f a
err e >>= f = err e

module _ {ℓ} {E : Type ℓ} (compress : List ℕ → Result E (List ℕ)) where
  -- `if let Some(ref mut c) = o { if c.compression { c.data = compress(&c.data)? } }`
  unfoldable pub compress_component : Option ComponentConfig → Result E (Option ComponentConfig)
  compress_component none = ok none
  compress_component (some c) =
      if c.compression
      then (compress c.payload >>= λ z. ok (some (record c { payload = z })))
      else ok (some c)

  unfoldable pub compress_components : FitImageConfig → Result E FitImageConfig
  compress_components config = do
    kernel ← compress_component config.kernel
    fdt ← compress_component config.fdt
    ramdisk ← compress_component config.ramdisk
    ok (record config { kernel = kernel; fdt = fdt; ramdisk = ramdisk })

  unfoldable pub build : ℕ → FitImageConfig → Result E (List ℕ)
  build now config = do
    compressed ← compress_components config
    ok (finalize (build_fit_tree now compressed new))
