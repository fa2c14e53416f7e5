-- ===== src/Fit/Header/Laws.antt =====
-- What `validate` accepts.
use ostool.Prelude.{◌≤◌, ◌≡◌, ◌↔◌, arith}
use ostool.Fit.Header.{FdtHeader, fdt_magic, fdt_last_comp_version, header_size, valid, validate}

-- `validate` accepts a header exactly when its magic number is the one of a device tree, its
-- version is 16 at least, and its total size is at least the size of a header.
validate_iff :
    (h : FdtHeader)
    → (validate h ≡ valid)
      ↔ ((h.magic ≡ fdt_magic) × (fdt_last_comp_version ≤ h.version) × (header_size ≤ h.totalsize))
unfolding validate
validate_iff h = (λ e. ground arith, λ e. ground arith)
