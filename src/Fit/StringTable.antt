-- ===== src/Fit/StringTable.antt =====
-- fitimage/src/fit/string_table.rs: the strings block of a device tree. Texts are their bytes.
-- Lengths and offsets are `usize`; the offset that is handed out is cut to `u32`, as in the code.
pub mod Laws
use ostool.Prelude.{
  ℕ, ◌+◌, ◌-◌, ◌%◌, List, [], ◌∷◌, ◌++◌, Option, none, some, Bool, Text, length, replicate, as_u32,
  ◌==◌,
}
use ostool.Prelude.Map.{lookup, insert, contains_key}

pub record StringTable : Type 0 where
  pub strings : List ℕ
  pub offsets : List (Text × ℕ)

unfoldable pub new : StringTable
new = record { strings = []; offsets = [] }

-- `Vec::resize` to the next multiple of 4, with zeros.
abbrev pub padding_needed : ℕ → ℕ
padding_needed n = (4 - n % 4) % 4

-- The bytes of a string that is not in the table: itself, its terminator, and the padding that
-- brings the whole block, `start` bytes long before, to a multiple of 4.
pub stored : ℕ → Text → List ℕ
stored start string = string ++ (0 ∷ replicate (padding_needed (start + (length string + 1))) 0)

unfoldable pub add_string : StringTable → Text → StringTable × ℕ
unfolding stored
add_string t string = elim (lookup string t.offsets) [
  | some offset ↦ (t, offset)
  | none ↦
      let offset = as_u32 (length t.strings) in
      (
        record {
          strings = t.strings ++ stored (length t.strings) string;
          offsets = insert string offset t.offsets;
        },
        offset,
      )
]

unfoldable pub get_offset : StringTable → Text → Option ℕ
get_offset t string = lookup string t.offsets

pub contains : StringTable → Text → Bool
contains t string = contains_key string t.offsets

unfoldable pub size : StringTable → ℕ
size t = length t.strings

unfoldable pub finalize : StringTable → List ℕ
finalize t = t.strings

pub len : StringTable → ℕ
len t = length t.offsets

pub is_empty : StringTable → Bool
unfolding len
is_empty t = len t == 0
