-- ===== src/Fit/Header.antt =====
-- fitimage/src/fit/fdt_header.rs: the header of a device tree and its memory reserve entries.
pub mod Laws
use ostool.Prelude.{
  ℕ, List, [], ◌∷◌, ◌++◌, Bool, true, false, not, replicate, be32, be64, ◌==◌, ltb, as_u32,
  if◌then◌else◌, map,
}

abbrev pub fdt_magic : ℕ
fdt_magic = 0xd00dfeed

abbrev pub fdt_version : ℕ
fdt_version = 0x11

abbrev pub fdt_last_comp_version : ℕ
fdt_last_comp_version = 0x10

pub record FdtHeader : Type 0 where
  pub magic : ℕ
  pub totalsize : ℕ
  pub off_dt_struct : ℕ
  pub off_dt_strings : ℕ
  pub off_mem_rsvmap : ℕ
  pub version : ℕ
  pub last_comp_version : ℕ
  pub boot_cpuid_phys : ℕ
  pub size_dt_strings : ℕ
  pub size_dt_struct : ℕ
  pub reserved0 : ℕ
  pub reserved1 : ℕ
  pub reserved2 : ℕ
  pub reserved3 : ℕ

-- `mem::size_of::<FdtHeader>()`: fourteen `u32`s in C layout.
abbrev pub header_size : ℕ
header_size = 56

unfoldable pub new : FdtHeader
new = record {
  magic = fdt_magic;
  totalsize = header_size;
  off_dt_struct = 0;
  off_dt_strings = 0;
  off_mem_rsvmap = 0;
  version = fdt_version;
  last_comp_version = fdt_last_comp_version;
  boot_cpuid_phys = 0;
  size_dt_strings = 0;
  size_dt_struct = 0;
  reserved0 = 0;
  reserved1 = 0;
  reserved2 = 0;
  reserved3 = 0;
}

unfoldable pub write_to_buffer : FdtHeader → List ℕ → List ℕ
write_to_buffer h buffer =
    buffer
    ++ (be32 h.magic
        ++ (be32 h.totalsize
            ++ (be32 h.off_dt_struct
                ++ (be32 h.off_dt_strings
                    ++ (be32 h.off_mem_rsvmap
                        ++ (be32 h.version
                            ++ (be32 h.last_comp_version
                                ++ (be32 h.boot_cpuid_phys
                                    ++ (be32 h.size_dt_strings
                                        ++ (be32 h.size_dt_struct
                                            ++ (be32 h.reserved0
                                                ++ (be32 h.reserved1
                                                    ++ (be32 h.reserved2
                                                        ++ be32 h.reserved3)))))))))))))

unfoldable pub finalize : FdtHeader → ℕ → ℕ → ℕ → ℕ → ℕ → ℕ → FdtHeader
finalize h totalsize off_dt_struct off_dt_strings off_mem_rsvmap size_dt_strings size_dt_struct =
    record h {
      totalsize = totalsize;
      off_dt_struct = off_dt_struct;
      off_dt_strings = off_dt_strings;
      off_mem_rsvmap = off_mem_rsvmap;
      size_dt_strings = size_dt_strings;
      size_dt_struct = size_dt_struct;
    }

pub data HeaderError : Type 0 where
  invalid_magic : ℕ → HeaderError
  unsupported_version : ℕ → HeaderError
  total_size_too_small : HeaderError

pub data Validation : Type 0 where
  valid : Validation
  invalid : HeaderError → Validation

unfoldable pub validate : FdtHeader → Validation
validate h =
    if not (h.magic == fdt_magic)
    then invalid (invalid_magic h.magic)
    else if ltb h.version fdt_last_comp_version
    then invalid (unsupported_version h.version)
    else if ltb h.totalsize (as_u32 header_size)
    then invalid total_size_too_small
    else valid

pub record MemReserveEntry : Type 0 where
  pub address : ℕ
  pub size : ℕ

abbrev pub entry_size : ℕ
entry_size = 16

unfoldable pub write_entry : MemReserveEntry → List ℕ → List ℕ
write_entry e buffer = (buffer ++ be64 e.address) ++ be64 e.size

pub write_terminator : List ℕ → List ℕ
write_terminator buffer = buffer ++ replicate 16 0
