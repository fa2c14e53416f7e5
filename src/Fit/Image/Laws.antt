-- ===== src/Fit/Image/Laws.antt =====
-- The finished image of a configuration whose components are compressed on request.
use ostool.Prelude.{
  ℕ, ◌^◌, ◌<◌, ◌≡◌, ◌⊎◌, inl, inr, refl, List, Option, none, some, Bool, true, false, if◌then◌else◌,
}
use ostool.Fit.Config.{ComponentConfig, FitImageConfig}
use ostool.Fit.Reader.{read_fdt}
use ostool.Fit.Builder.{finalize}
use ostool.Fit.Builder.Image.{image_size}
use ostool.Fit.Builder.Whole.{Named, HasNames, fit_tree}
use ostool.Fit.Builder.RoundTrip.{built, read_fdt-build}
use ostool.Fit.Image.{Result, ok, ◌>>=◌, compress_component, compress_components, build}

-- The component as it goes into the image: `z` gives the compressed data of those that ask for it.
abbrev pub packed_component : (List ℕ → List ℕ) → Option ComponentConfig → Option ComponentConfig
packed_component z none = none
packed_component z (some c) =
    some (record c { payload = if c.compression then z c.payload else c.payload })

abbrev pub packed_config : (List ℕ → List ℕ) → FitImageConfig → FitImageConfig
packed_config z config = record config {
  kernel = packed_component z config.kernel;
  fdt = packed_component z config.fdt;
  ramdisk = packed_component z config.ramdisk;
}

packed_component-Named :
    (z : List ℕ → List ℕ) (o : Option ComponentConfig) → Named o → Named (packed_component z o)
packed_component-Named z none h = h
packed_component-Named z (some c) h = h

packed_config-HasNames :
    (z : List ℕ → List ℕ) (config : FitImageConfig)
    → HasNames config
    → HasNames (packed_config z config)
packed_config-HasNames z config h = record {
  kernel_named = packed_component-Named z config.kernel h.kernel_named;
  fdt_named = packed_component-Named z config.fdt h.fdt_named;
  ramdisk_named = packed_component-Named z config.ramdisk h.ramdisk_named;
  configurations_named = h.configurations_named;
}

module _ {ℓ} {E : Type ℓ} (compress : List ℕ → Result E (List ℕ)) (z : List ℕ → List ℕ) where
  -- The component is there to be compressed with this result, if it asks for it.
  abbrev pub IsPacked : Option ComponentConfig → Type ℓ
  IsPacked none = Unit
  IsPacked (some c) = (c.compression ≡ false) ⊎ (compress c.payload ≡ ok (z c.payload))

  compress_component-packed :
      (o : Option ComponentConfig)
      → IsPacked o
      → compress_component compress o ≡ ok (packed_component z o)
  unfolding compress_component
  compress_component-packed none h = refl
  compress_component-packed (some c) h = on_request c.compression h
    where
      on_request :
          (b : Bool)
          → (b ≡ false) ⊎ (compress c.payload ≡ ok (z c.payload))
          → (if b
              then (compress c.payload >>= λ x. ok (some (record c { payload = x })))
              else ok (some c))
            ≡ ok (some (record c { payload = if b then z c.payload else c.payload }))
      on_request true (inl no_request) = absurd (cc)
      on_request true (inr e) = rw e refl
      on_request false h = refl

  -- If the compressor gives `z` of the data of every component that asks for compression, the node
  -- names have no NUL and the image is below 4 GiB, then `build` succeeds, and a boot loader reads its
  -- image as the tree of the configuration in which the data of exactly these components are compressed
  -- and all else is as it was.
  pub build-reads :
      (now : ℕ) (config : FitImageConfig)
      → IsPacked config.kernel
      → IsPacked config.fdt
      → IsPacked config.ramdisk
      → HasNames config
      → image_size (built now (packed_config z config)) < 2 ^ 32
      → (image : List ℕ) × (build compress now config ≡ ok image)
        × (read_fdt image ≡ some (fit_tree now (packed_config z config)))
  unfolding build compress_components
  build-reads now config k f r h small = (
    finalize (built now (packed_config z config)),
    simp
        (
          compress_component-packed config.kernel k,
          compress_component-packed config.fdt f,
          compress_component-packed config.ramdisk r,
        )
        refl,
    read_fdt-build now (packed_config z config) (packed_config-HasNames z config h) small,
  )
