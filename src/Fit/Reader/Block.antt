-- ===== src/Fit/Reader/Block.antt =====
-- Reading the structure block and the strings block.
use ostool.Prelude.{
  ℕ, zero, suc, ◌+◌, ◌-◌, ◌%◌, List, [], ◌∷◌, ◌++◌, Option, none, some, Text, length, take, drop,
  of_be32, ◌==◌, if◌then◌else◌, ltb,
}

infixl 5 ◌>>=◌
abbrev pub ◌>>=◌ {ℓ κ} : {A : Type ℓ} {B : Type κ} → Option A → (A → Option B) → Option B
none >>= f = none
some a >>= f = f a

-- A text up to its NUL, and the bytes behind the NUL.
unfoldable pub read_cstr : List ℕ → Option (Text × List ℕ)
read_cstr [] = none
read_cstr (b ∷ bs) =
    let more = read_cstr bs in if b == 0 then some ([], bs) else (more >>= λ r. some (b ∷ r.0, r.1))

-- The text at an offset of the strings block.
unfoldable pub string_at : List ℕ → ℕ → Option Text
string_at strings offset = read_cstr (drop offset strings) >>= λ r. some r.0

-- A token of the structure block with what belongs to it. A property names its name by an offset.
pub data Raw : Type 0 where
  begin_node : Text → Raw
  end_node : Raw
  prop : ℕ → List ℕ → Raw
  nop : Raw
  finish : Raw

-- What lies between `n` bytes and the next multiple of 4.
abbrev pub gap : ℕ → ℕ
gap n = (4 - n % 4) % 4

abbrev pub read_u32 : List ℕ → Option (ℕ × List ℕ)
read_u32 (a ∷ b ∷ c ∷ d ∷ rest) = some (of_be32 a b c d, rest)
read_u32 _ = none

unfoldable pub read_name : List ℕ → Option (Raw × List ℕ)
read_name bs = do
  (name, rest) ← read_cstr bs
  some (begin_node name, drop (gap (length name + 1)) rest)

unfoldable pub read_value : ℕ → ℕ → List ℕ → Option (Raw × List ℕ)
read_value len offset bs =
    if ltb (length bs) len
    then none
    else some (prop offset (take len bs), drop (gap len) (drop len bs))

pub read_prop : List ℕ → Option (Raw × List ℕ)
read_prop bs = do
  (len, rest) ← read_u32 bs
  (offset, rest') ← read_u32 rest
  read_value len offset rest'

pub read_body : ℕ → List ℕ → Option (Raw × List ℕ)
read_body token rest =
    if token == 1
    then read_name rest
    else if token == 2
    then some (end_node, rest)
    else if token == 3
    then read_prop rest
    else if token == 4
    then some (nop, rest)
    else if token == 9
    then some (finish, rest)
    else none

unfoldable pub read_raw : List ℕ → Option (Raw × List ℕ)
unfolding read_name read_value read_prop read_body
read_raw bs = do (token, rest) ← read_u32 bs; read_body token rest

-- The tokens up to the end token. Each takes four bytes at least, so the length of the block is
-- fuel enough.
unfoldable pub read_all : ℕ → List ℕ → Option (List Raw)
read_all zero bs = none
read_all (suc fuel) bs = elim (read_raw bs) [
  | none ↦ none
  | some (finish, rest) ↦ some []
  | some (begin_node n, rest) ↦ (read_all fuel rest >>= λ rs. some (begin_node n ∷ rs))
  | some (end_node, rest) ↦ (read_all fuel rest >>= λ rs. some (end_node ∷ rs))
  | some (prop o v, rest) ↦ (read_all fuel rest >>= λ rs. some (prop o v ∷ rs))
  | some (nop, rest) ↦ (read_all fuel rest >>= λ rs. some (nop ∷ rs))
]

-- What a tree says, with the names in place and the padding tokens gone.
pub data Item : Type 0 where
  open_node : Text → Item
  close_node : Item
  property : Text → List ℕ → Item

unfoldable pub resolve_item : List ℕ → Raw → Option (List Item)
resolve_item strings (begin_node n) = some (open_node n ∷ [])
resolve_item strings end_node = some (close_node ∷ [])
resolve_item strings (prop o v) = string_at strings o >>= λ n. some (property n v ∷ [])
resolve_item strings nop = some []
resolve_item strings finish = some []

unfoldable pub resolve : List ℕ → List Raw → Option (List Item)
resolve strings [] = some []
resolve strings (r ∷ rs) = do i ← resolve_item strings r; is ← resolve strings rs; some (i ++ is)

-- The blocks of a tree, read.
unfoldable pub read_block : List ℕ → List ℕ → Option (List Item)
unfolding read_all resolve
read_block strings block = do rs ← read_all (length block) block; resolve strings rs
