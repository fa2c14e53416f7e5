-- ===== src/Fit/Builder/Adds.antt =====
-- What each write adds to the tree that the blocks hold, as a boot loader reads them.
use ostool.Prelude.{
  ℕ, ◌+◌, ◌%◌, ◌^◌, ◌≤◌, ◌<◌, ◌≡◌, refl, sym, ap, ◌∙◌, All-append, List, [], ◌∷◌, ◌++◌, some, Text,
  length, All, be32, arith, append_assoc, append-nil, length-append, IsU32,
}
use ostool.Fit.StringTable.{add_string}
use ostool.Fit.StringTable.Laws.{
  IsValid, add_string-IsValid, length-add_string_le, add_string-extends,
}
use ostool.Fit.Reader.{
  Raw, Fits, NoNul, Item, open_node, close_node, property, encode_raw, encode, padded, resolve,
  resolve_item, length-encode, encode-append, resolve-append, resolve-append_strings,
}
use ostool.Fit.Tokens.{
  write_token, write_string, write_prop_data, write_string-padded, pad_to_alignment,
}
use ostool.Fit.Builder.{StandardFdtBuilder, Write, begin_node, end_node}

-- Both blocks can be measured by a `u32`.
pub record InRange (b : StandardFdtBuilder) : Type 0 where
  pub strings_fit : length b.string_table.strings < 2 ^ 32
  pub struct_fits : length b.struct_buffer < 2 ^ 32

-- The structure block is a sequence of whole tokens, which say what the items say.
pub record Says (b : StandardFdtBuilder) (is : List Item) : Type 0 where
  pub table_valid : IsValid b.string_table
  pub raws : List Raw
  pub raws_fit : All Fits raws
  pub block_is : b.struct_buffer ≡ encode raws
  pub names_stand : resolve b.string_table.strings raws ≡ some is

abbrev pub Holds : StandardFdtBuilder → List Item → Type 0
Holds b is = InRange b → Says b is

-- From any builder, the write appends these items to what the blocks say, and leaves the header
-- and the memory reserve map.
pub record Adds (f : Write) (items : List Item) : Type 0 where
  pub keeps_header : (b : StandardFdtBuilder) → (f b).header ≡ b.header
  pub keeps_reserve : (b : StandardFdtBuilder) → (f b).mem_reserve ≡ b.mem_reserve
  pub appends : (b : StandardFdtBuilder) (is : List Item) → Holds b is → Holds (f b) (is ++ items)

-- A write that puts one token behind a block of whole tokens, and may add to the strings.
Says-append :
    (b b' : StandardFdtBuilder) (r : Raw) (is js : List Item) (more : List ℕ)
    → Says b is
    → IsValid b'.string_table
    → b'.string_table.strings ≡ b.string_table.strings ++ more
    → Fits r
    → b'.struct_buffer ≡ b.struct_buffer ++ encode_raw r
    → resolve_item b'.string_table.strings r ≡ some js
    → Says b' (is ++ js)
unfolding encode resolve
Says-append b b' r is js more s valid grown fit block item = record {
  table_valid = valid;
  raws = s.raws ++ (r ∷ []);
  raws_fit = All-append Fits s.raws (r ∷ []) s.raws_fit (fit, tt);
  block_is =
      block
      ∙ ap (λ x. x ++ encode_raw r) s.block_is
      ∙ sym (
          encode-append s.raws (r ∷ []) ∙ ap (λ x. encode s.raws ++ x) (append-nil (encode_raw r)));
  names_stand =
      resolve-append b'.string_table.strings s.raws (r ∷ []) is js
        (rw grown (resolve-append_strings b.string_table.strings more s.raws is s.names_stand))
        (rw item (rw (append-nil js)));
}

aligned : {b : StandardFdtBuilder} {is : List Item} → Says b is → length b.struct_buffer % 4 ≡ 0
aligned s = rw s.block_is (length-encode s.raws)

pub length-write_string_le :
    (buffer : List ℕ) (s : Text) → length buffer + length s ≤ length (write_string buffer s)
unfolding write_string pad_to_alignment
length-write_string_le buffer s = grind (arith, length-append)

pub length-write_prop_data_le :
    (buffer v : List ℕ) → length buffer + length v ≤ length (write_prop_data buffer v)
unfolding write_prop_data pad_to_alignment
length-write_prop_data_le buffer v = grind (arith, length-append)

aligned-be32 : (buffer : List ℕ) (v : ℕ) → length buffer % 4 ≡ 0 → length (buffer ++ be32 v) % 4 ≡ 0
aligned-be32 buffer v h = omega (arith, length-append buffer (be32 v))

pub Adds-begin_node : (n : Text) → NoNul n → Adds (begin_node n) (open_node n ∷ [])
unfolding begin_node write_token encode_raw resolve_item
Adds-begin_node n h = record {
  keeps_header = λ b. refl;
  keeps_reserve = λ b. refl;
  appends = λ b is held range.
      let start = b.struct_buffer ++ be32 1 in
      let s = held (record {
        strings_fit = range.strings_fit;
        struct_fits = omega (
          arith,
          length-write_string_le start n,
          length-append b.struct_buffer (be32 1),
          range.struct_fits,
        );
      }) in
      Says-append b _ (Raw.begin_node n) is (open_node n ∷ []) [] s s.table_valid
        (sym (append-nil b.string_table.strings)) h
        (write_string-padded start n (aligned-be32 b.struct_buffer 1 (aligned s))
          ∙ append_assoc b.struct_buffer (be32 1) (padded (n ++ (0 ∷ []))))
        refl;
}

-- A write of one bare token.
pub Adds-token :
    (f : Write) (r : Raw) (js : List Item)
    → Fits r
    → ((strings : List ℕ) → resolve_item strings r ≡ some js)
    → ((b : StandardFdtBuilder)
        → ((f b).string_table ≡ b.string_table)
          × ((f b).struct_buffer ≡ b.struct_buffer ++ encode_raw r)
          × ((f b).header ≡ b.header)
          × ((f b).mem_reserve ≡ b.mem_reserve))
    → Adds f js
Adds-token f r js fits item writes = record {
  keeps_header = λ b. (writes b).2;
  keeps_reserve = λ b. (writes b).3;
  appends = λ b is held range.
      let (table, block, _, _) = writes b in
      let s = held (record {
        strings_fit = rw table at range.strings_fit;
        struct_fits = omega (
          arith,
          length-append b.struct_buffer (encode_raw r),
          ap length block,
          range.struct_fits,
        );
      }) in
      Says-append b (f b) r is js [] s (rw table s.table_valid)
        (rw table (sym (append-nil b.string_table.strings))) fits block (item _);
}

pub Adds-end_node : Adds end_node (close_node ∷ [])
unfolding end_node write_token encode_raw resolve_item
Adds-end_node =
    Adds-token end_node Raw.end_node _ tt (λ strings. refl) (λ b. (refl, refl, refl, refl))

-- A property write: the name goes to the string table, and the token, the length, the offset and
-- the value padded to the structure block.
pub record WritesProperty (name : Text) (v : List ℕ) (f : Write) : Type 0 where
  pub header : (b : StandardFdtBuilder) → (f b).header ≡ b.header
  pub reserve : (b : StandardFdtBuilder) → (f b).mem_reserve ≡ b.mem_reserve
  pub table : (b : StandardFdtBuilder) → (f b).string_table ≡ (add_string b.string_table name).0
  pub grows :
      (b : StandardFdtBuilder) → length b.struct_buffer + length v ≤ length (f b).struct_buffer
  pub block :
      (b : StandardFdtBuilder)
      → length b.struct_buffer % 4 ≡ 0
      → IsU32 (length v)
      → (f b).struct_buffer
        ≡ b.struct_buffer ++ encode_raw (Raw.prop (add_string b.string_table name).1 v)

pub Adds-property :
    (name : Text) (v : List ℕ) (f : Write)
    → NoNul name
    → WritesProperty name v f
    → Adds f (property name v ∷ [])
unfolding resolve_item
Adds-property name v f h w = record {
  keeps_header = w.header;
  keeps_reserve = w.reserve;
  appends = λ b is held range.
      let t' = (add_string b.string_table name).0 in
      let o = (add_string b.string_table name).1 in
      let (more, grown) = add_string-extends b.string_table name in
      let small : length t'.strings < 2 ^ 32 = rw (w.table b) at range.strings_fit in
      let s = held (record {
        strings_fit = omega (arith, length-add_string_le b.string_table name);
        struct_fits = omega (arith, w.grows b, range.struct_fits);
      }) in
      let (valid, stands, _) = add_string-IsValid b.string_table name s.table_valid h small in
      let fits : IsU32 (length v) = omega (arith, w.grows b, range.struct_fits) in
      Says-append b (f b) (Raw.prop o v) is (property name v ∷ []) more s (rw (w.table b) valid)
        (rw (w.table b) grown) (stands.0, fits) (w.block b (aligned s) fits)
        (rw (w.table b, stands.1));
}
