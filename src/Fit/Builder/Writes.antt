-- ===== src/Fit/Builder/Writes.antt =====
-- The writes of properties, and how writes combine.
use ostool.Prelude.{
  ℕ, ◌+◌, ◌%◌, ◌^◌, ◌<◌, ◌≡◌, refl, sym, ap, ◌∙◌, List, [], ◌∷◌, ◌++◌, Option, none, some, Text,
  length, as_u32, be32, be64, arith, append_assoc, append-nil, length-append, ◌==◌, Bool-cases, inl,
  inr,
}
use native.Mathlib.Nat.{mod-eq_of_lt}
use ostool.Fit.Reader.{Raw, NoNul, Item, property, encode_raw, padded, resolve_item}
use ostool.Fit.StringTable.{add_string}
use ostool.Fit.Tokens.{
  FdtToken, write_token, write_prop_header, write_string-padded, write_prop_data-padded,
}
use ostool.Fit.Builder.{
  StandardFdtBuilder, Write, ◌▸◌, begin_property, add_property_string, add_property_u32,
  add_property_u64, add_property_data, align_fdt_data, add_fdt_property_data, if_some,
  fdt_data_alignment, data_offset,
}
use ostool.Fit.Builder.Adds.{
  Adds, Adds-property, Adds-token, length-write_string_le, length-write_prop_data_le,
}

-- The structure block behind the start of a property.
abbrev started : List ℕ → ℕ → ℕ → List ℕ
started buffer len o = ((buffer ++ be32 3) ++ be32 len) ++ be32 o

length-started : (buffer : List ℕ) (len o : ℕ) → length (started buffer len o) ≡ length buffer + 12
length-started buffer len o = grind (arith, length-append)

started-append :
    (buffer : List ℕ) (len o : ℕ) (v : List ℕ)
    → started buffer len o ++ v ≡ buffer ++ (be32 3 ++ (be32 len ++ (be32 o ++ v)))
started-append buffer len o v = simp append_assoc

aligned-started :
    (buffer : List ℕ) (len o : ℕ) → length buffer % 4 ≡ 0 → length (started buffer len o) % 4 ≡ 0
aligned-started buffer len o h = omega (arith, length-started buffer len o)

-- Behind the start of a property with the length `len`, a value that is written padded.
block-started :
    (buffer : List ℕ) (len o : ℕ) (v after : List ℕ)
    → after ≡ started buffer len o ++ padded v
    → len ≡ length v
    → after ≡ buffer ++ encode_raw (Raw.prop o v)
unfolding encode_raw
block-started buffer len o v after e same =
    e
    ∙ ap (λ k. started buffer k o ++ padded v) same
    ∙ started-append buffer (length v) o (padded v)

string_length : (value : Text) → length (value ++ (0 ∷ [])) ≡ length value + 1
string_length value = omega (arith, length-append value (0 ∷ []))

string_length_field :
    (value : Text)
    → length (value ++ (0 ∷ [])) < 2 ^ 32
    → (as_u32 (length value) + 1) % 2 ^ 32 ≡ length (value ++ (0 ∷ []))
string_length_field value h = omega (arith, string_length value)

-- A text property holds the text and a NUL.
pub Adds-string :
    (name value : Text)
    → NoNul name
    → Adds (add_property_string name value) (property name (value ++ (0 ∷ [])) ∷ [])
unfolding add_property_string begin_property write_token write_prop_header encode_raw
Adds-string name value h =
    Adds-property name (value ++ (0 ∷ [])) (add_property_string name value) h (record {
      header = λ b. refl;
      reserve = λ b. refl;
      table = λ b. refl;
      grows = λ b. omega (
        arith,
        string_length value,
        length-write_string_le (started b.struct_buffer (field) (at b)) value,
        length-started b.struct_buffer field (at b),
      );
      block = λ b even small.
          block-started b.struct_buffer field (at b) (value ++ (0 ∷ [])) _
            (write_string-padded _ value (aligned-started b.struct_buffer field (at b) even))
            (string_length_field value small);
    })
  where
    field : ℕ
    field = (as_u32 (length value) + 1) % 2 ^ 32

    at : StandardFdtBuilder → ℕ
    at b = (add_string b.string_table name).1

pub Adds-u32 :
    (name : Text) (value : ℕ)
    → NoNul name
    → Adds (add_property_u32 name value) (property name (be32 value) ∷ [])
unfolding add_property_u32 begin_property write_token write_prop_header encode_raw padded
Adds-u32 name value h = Adds-property name (be32 value) (add_property_u32 name value) h (record {
  header = λ b. refl;
  reserve = λ b. refl;
  table = λ b. refl;
  grows = λ b. grind (arith, length-append);
  block = λ b _ _. started-append b.struct_buffer 4 _ (be32 value);
})

pub Adds-u64 :
    (name : Text) (value : ℕ)
    → NoNul name
    → Adds (add_property_u64 name value) (property name (be64 value) ∷ [])
unfolding add_property_u64 begin_property write_token write_prop_header encode_raw padded
Adds-u64 name value h = Adds-property name (be64 value) (add_property_u64 name value) h (record {
  header = λ b. refl;
  reserve = λ b. refl;
  table = λ b. refl;
  grows = λ b. grind (arith, length-append);
  block = λ b _ _. started-append b.struct_buffer 8 _ (be64 value);
})

pub Adds-data :
    (name : Text) (v : List ℕ) → NoNul name → Adds (add_property_data name v) (property name v ∷ [])
unfolding add_property_data begin_property write_token write_prop_header encode_raw
Adds-data name v h = Adds-property name v (add_property_data name v) h (record {
  header = λ b. refl;
  reserve = λ b. refl;
  table = λ b. refl;
  grows = λ b. omega (
    arith,
    length-write_prop_data_le (started b.struct_buffer field (at b)) v,
    length-started b.struct_buffer field (at b),
  );
  block = λ b even small.
      block-started b.struct_buffer field (at b) v _
        (write_prop_data-padded _ v (aligned-started b.struct_buffer field (at b) even))
        (mod-eq_of_lt small);
})
  where
    field : ℕ
    field = as_u32 (length v)

    at : StandardFdtBuilder → ℕ
    at b = (add_string b.string_table name).1

pub Adds-▸ : (f g : Write) {xs ys : List Item} → Adds f xs → Adds g ys → Adds (f ▸ g) (xs ++ ys)
unfolding ◌▸◌
Adds-▸ f g {xs} {ys} a c = record {
  keeps_header = λ b. c.keeps_header (f b) ∙ a.keeps_header b;
  keeps_reserve = λ b. c.keeps_reserve (f b) ∙ a.keeps_reserve b;
  appends = λ b is held.
      rw (sym (append_assoc is xs ys)) (c.appends (f b) (is ++ xs) (a.appends b is held));
}

pub Adds-skip : Adds (λ b. b) []
Adds-skip = record {
  keeps_header = λ b. refl;
  keeps_reserve = λ b. refl;
  appends = λ b is held. rw (append-nil is) held;
}

-- The items of an optional part.
unfoldable pub optional {ℓ} : {A : Type ℓ} → Option A → (A → List Item) → List Item
optional none items = []
optional (some x) items = items x

pub Adds-if_some {ℓ} :
    {A : Type ℓ} (o : Option A) (f : A → Write) (items : A → List Item)
    → ((x : A) → Adds (f x) (items x))
    → Adds (if_some o f) (optional o items)
unfolding if_some optional
Adds-if_some none f items h = Adds-skip
Adds-if_some (some x) f items h = h x

-- The padding token says nothing.
abbrev nop_write : Write
nop_write b = record b { struct_buffer = write_token FdtToken.nop b.struct_buffer }

Adds-nop : Adds nop_write []
unfolding write_token encode_raw resolve_item
Adds-nop = Adds-token nop_write Raw.nop [] tt (λ strings. refl) (λ b. (refl, refl, refl, refl))

Adds-align : Adds align_fdt_data []
unfolding align_fdt_data
Adds-align = record {
  keeps_header = λ b. ground arith;
  keeps_reserve = λ b. ground arith;
  appends = λ b is held. elim (Bool-cases (data_offset b % fdt_data_alignment == 0)) [
    | inl fine ↦ rw (fine, append-nil is) held
    | inr off ↦ rw off (Adds-nop.appends b is held)
  ];
}

pub Adds-fdt_data :
    (name : Text) (v : List ℕ)
    → NoNul name
    → Adds (add_fdt_property_data name v) (property name v ∷ [])
unfolding add_fdt_property_data
Adds-fdt_data name v h =
    Adds-▸ align_fdt_data (add_property_data name v) Adds-align (Adds-data name v h)
