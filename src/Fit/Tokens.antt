-- ===== src/Fit/Tokens.antt =====
-- fitimage/src/fit/fdt_tokens.rs: the tokens of the structure block and what is written after them.
use ostool.Prelude.{
  ℕ, ◌+◌, ◌-◌, ◌*◌, ◌/◌, List, [], ◌∷◌, ◌++◌, Text, length, replicate, be32, ◌≡◌, ◌%◌, arith,
  length-append, append_assoc, ap,
}
use ostool.Fit.Reader.{padded}

pub data FdtToken : Type 0 where
  begin_node end_node prop nop end : FdtToken

abbrev pub value : FdtToken → ℕ
value begin_node = 1
value end_node = 2
value prop = 3
value nop = 4
value end = 9

unfoldable pub write_token : FdtToken → List ℕ → List ℕ
write_token t buffer = buffer ++ be32 (value t)

-- `(length + FDT_STRUCT_ALIGN - 1) & !(FDT_STRUCT_ALIGN - 1)` with the alignment 4: the mask clears
-- the two lowest bits.
unfoldable pub align_to_4_bytes : ℕ → ℕ
align_to_4_bytes length = (length + 4 - 1) / 4 * 4

unfoldable pub pad_to_alignment : List ℕ → List ℕ
unfolding align_to_4_bytes
pad_to_alignment buffer =
    let padding_needed = align_to_4_bytes (length buffer) - length buffer in
    buffer ++ replicate padding_needed 0

-- These return `Ok(())` always.
unfoldable pub write_string : List ℕ → Text → List ℕ
write_string buffer string = pad_to_alignment ((buffer ++ string) ++ (0 ∷ []))

unfoldable pub write_prop_data : List ℕ → List ℕ → List ℕ
write_prop_data buffer payload = pad_to_alignment (buffer ++ payload)

unfoldable pub write_prop_header : List ℕ → ℕ → ℕ → List ℕ
write_prop_header buffer length name_offset = (buffer ++ be32 length) ++ be32 name_offset

-- On a block that is aligned already, padding the block is padding what was added.
pub pad_to_alignment-append :
    (buffer added : List ℕ)
    → length buffer % 4 ≡ 0
    → pad_to_alignment (buffer ++ added) ≡ buffer ++ padded added
unfolding pad_to_alignment padded
pad_to_alignment-append buffer added h =
    rw (append_assoc buffer)
      (ap (λ k. buffer ++ (added ++ replicate k 0)) (omega (arith, length-append buffer added)))

pub write_string-padded :
    (buffer : List ℕ) (string : Text)
    → length buffer % 4 ≡ 0
    → write_string buffer string ≡ buffer ++ padded (string ++ (0 ∷ []))
unfolding write_string
write_string-padded buffer string h =
    rw (append_assoc buffer) (pad_to_alignment-append buffer (string ++ (0 ∷ [])) h)

pub write_prop_data-padded :
    (buffer payload : List ℕ)
    → length buffer % 4 ≡ 0
    → write_prop_data buffer payload ≡ buffer ++ padded payload
unfolding write_prop_data
write_prop_data-padded = pad_to_alignment-append
