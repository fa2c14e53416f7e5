-- ===== src/Fit/Reader/Encode.antt =====
-- Tokens as bytes, and that reading them gives them back.
use ostool.Prelude.{
  ℕ, zero, suc, ◌*◌, ◌%◌, ◌≤◌, ◌<◌, ◌≡◌, ◌≢◌, refl, ◌∙◌, List, [], ◌∷◌, ◌++◌, Option, none, some,
  false, Text, length, drop, All, replicate, be32, of_be32-be32, IsU32, arith, append_assoc,
  length-append, length-replicate, take-append, drop-append, drop-append_le, ltb, Option-cases, inl,
  inr,
}
use native.Mathlib.Decide.{dec_le}
use ostool.Fit.Reader.Block.{
  ◌>>=◌, read_cstr, string_at, Raw, begin_node, end_node, prop, nop, finish, gap, read_raw,
  read_all, read_name, read_value, Item, resolve_item, resolve,
}

-- A text that can stand in the format: without a NUL.
abbrev pub NoNul : Text → Type 0
NoNul = All λ b. b ≢ 0

-- Bytes, with zeros up to the next multiple of 4.
unfoldable pub padded : List ℕ → List ℕ
padded v = v ++ replicate (gap (length v)) 0

unfoldable pub encode_raw : Raw → List ℕ
encode_raw (begin_node n) = be32 1 ++ padded (n ++ (0 ∷ []))
encode_raw end_node = be32 2
encode_raw (prop o v) = be32 3 ++ (be32 (length v) ++ (be32 o ++ padded v))
encode_raw nop = be32 4
encode_raw finish = be32 9

unfoldable pub encode : List Raw → List ℕ
encode [] = []
encode (r ∷ rs) = encode_raw r ++ encode rs

-- A token whose numbers fit their fields, and which is no end token.
abbrev pub Fits : Raw → Type 0
Fits (begin_node n) = NoNul n
Fits end_node = Unit {0}
Fits (prop o v) = IsU32 o × IsU32 (length v)
Fits nop = Unit {0}
Fits finish = ⊥

pub read_cstr-append :
    (n : Text) (rest : List ℕ) → NoNul n → read_cstr (n ++ (0 ∷ rest)) ≡ some (n, rest)
unfolding read_cstr
read_cstr-append [] rest h = refl
read_cstr-append (b ∷ bs) rest h = ground (arith, read_cstr-append bs rest h.1)

drop_gap : (n : ℕ) (rest : List ℕ) → drop n (replicate n 0 ++ rest) ≡ rest
drop_gap zero rest = refl
drop_gap (suc n) rest = drop_gap n rest

pub length-padded : (v : List ℕ) → length (padded v) % 4 ≡ 0
unfolding padded
length-padded v = omega (
  arith,
  length-append v (replicate (gap (length v)) 0),
  length-replicate {A = ℕ} (gap (length v)) 0,
)

length-encode_raw : (r : Raw) → (length (encode_raw r) % 4 ≡ 0) × (4 ≤ length (encode_raw r))
unfolding encode_raw
length-encode_raw (begin_node n) = (omega (arith, length-padded (n ++ (0 ∷ []))), omega arith)
length-encode_raw end_node = (omega arith, omega arith)
length-encode_raw (prop o v) = (omega (arith, length-padded v), omega arith)
length-encode_raw nop = (omega arith, omega arith)
length-encode_raw finish = (omega arith, omega arith)

-- Encoded tokens keep the block a multiple of four bytes long.
pub length-encode : (rs : List Raw) → length (encode rs) % 4 ≡ 0
unfolding encode
length-encode [] = omega arith
length-encode (r ∷ rs) =
    omega
      (arith, length-append (encode_raw r) (encode rs), (length-encode_raw r).0, length-encode rs)

pub encode-append : (rs ts : List Raw) → encode (rs ++ ts) ≡ encode rs ++ encode ts
unfolding encode
encode-append [] ts = refl
encode-append (r ∷ rs) ts =
    rw (encode-append rs ts, append_assoc (encode_raw r) (encode rs) (encode ts))

read_name-padded :
    (n : Text) (rest : List ℕ)
    → NoNul n
    → read_name (padded (n ++ (0 ∷ [])) ++ rest) ≡ some (begin_node n, rest)
unfolding read_name padded
read_name-padded n rest h =
    rw (append_assoc (n ++ (0 ∷ [])), append_assoc n, read_cstr-append n _ h, read_name)
      (rw (length-append n (0 ∷ [])) (rw drop_gap))

ltb-length-append : (v ws : List ℕ) → ltb (length (v ++ ws)) (length v) ≡ false
ltb-length-append v ws = ground (arith, length-append v ws)

read_value-padded :
    (o : ℕ) (v rest : List ℕ) → read_value (length v) o (padded v ++ rest) ≡ some (prop o v, rest)
unfolding read_value padded
read_value-padded o v rest =
    rw (append_assoc v, ltb-length-append v, take-append v, drop-append v, drop_gap)

-- A token is read back, whatever follows it.
read_raw-encode_raw :
    (r : Raw) (rest : List ℕ) → Fits r → read_raw (encode_raw r ++ rest) ≡ some (r, rest)
unfolding read_raw encode_raw padded
read_raw-encode_raw (begin_node n) rest h = read_name-padded n rest h
read_raw-encode_raw end_node rest h = refl
read_raw-encode_raw (prop o v) rest h =
    rw (of_be32-be32 (length v) h.1, of_be32-be32 o h.0) (read_value-padded o v rest)
read_raw-encode_raw nop rest h = refl
read_raw-encode_raw finish rest h = absurd h

read_all_step :
    (fuel : ℕ) (r : Raw) (bs rest : List ℕ)
    → read_raw bs ≡ some (r, rest)
    → Fits r
    → read_all (suc fuel) bs ≡ (read_all fuel rest >>= λ rs. some (r ∷ rs))
unfolding read_all
read_all_step fuel (begin_node n) bs rest e h = rw (e, read_all)
read_all_step fuel end_node bs rest e h = rw (e, read_all)
read_all_step fuel (prop o v) bs rest e h = rw (e, read_all)
read_all_step fuel nop bs rest e h = rw (e, read_all)
read_all_step fuel finish bs rest e h = absurd h

read_all_end :
    (fuel : ℕ) (rest : List ℕ) → read_all (suc fuel) (encode_raw finish ++ rest) ≡ some []
unfolding read_all encode_raw read_raw
read_all_end fuel rest = refl

-- A block of tokens that ends with the end token is read whole.
pub read_all-encode :
    (rs : List Raw) (fuel : ℕ) (rest : List ℕ)
    → All Fits rs
    → length rs < fuel
    → read_all fuel (encode rs ++ (encode_raw finish ++ rest)) ≡ some rs
unfolding encode
read_all-encode rs zero rest h f = absurd (omega arith)
read_all-encode [] (suc fuel) rest h f = read_all_end fuel rest
read_all-encode (r ∷ rs) (suc fuel) rest h f =
    let tail = encode rs ++ (encode_raw finish ++ rest) in
    rw (append_assoc (encode_raw r)) (
      read_all_step fuel r _ tail (read_raw-encode_raw r tail h.0) h.0
      ∙ rw (read_all-encode rs fuel rest h.1 (omega arith)))

pub length-le-encode : (rs : List Raw) → 4 * length rs ≤ length (encode rs)
unfolding encode
length-le-encode [] = omega arith
length-le-encode (r ∷ rs) =
    omega (
      arith,
      length-append (encode_raw r) (encode rs),
      (length-encode_raw r).1,
      length-le-encode rs,
    )

read_cstr-append_some :
    (bs more : List ℕ) (n : Text) (rest : List ℕ)
    → read_cstr bs ≡ some (n, rest)
    → read_cstr (bs ++ more) ≡ some (n, rest ++ more)
unfolding read_cstr
read_cstr-append_some [] more n rest e = cc
read_cstr-append_some (b ∷ bs) more n rest e = elim (Option-cases (read_cstr bs)) [
  | inl missing ↦ ground arith
  | inr ((m, tail), found) ↦ ground (arith, found, read_cstr-append_some bs more m tail found)
]

drop_beyond : (n : ℕ) (xs : List ℕ) → length xs ≤ n → drop n xs ≡ []
drop_beyond zero [] h = refl
drop_beyond zero (x ∷ xs) h = absurd (omega arith)
drop_beyond (suc n) [] h = refl
drop_beyond (suc n) (x ∷ xs) h = drop_beyond n xs (omega arith)

-- Inversion of a bind that succeeds.
pub >>=-eq-some {ℓ κ} :
    {A : Type ℓ} {B : Type κ} (m : Option A) (f : A → Option B) {b : B}
    → (m >>= f) ≡ some b
    → (a : A) × (m ≡ some a) × (f a ≡ some b)
>>=-eq-some none f h = cc
>>=-eq-some (some a) f h = (a, refl, h)

-- A name that an offset gives stays, whatever is added behind.
pub string_at-append :
    (strings more : List ℕ) (offset : ℕ) {n : Text}
    → string_at strings offset ≡ some n
    → string_at (strings ++ more) offset ≡ some n
unfolding string_at read_cstr
string_at-append strings more offset {n} e = elim (dec_le (length strings) offset) [
  | yes beyond ↦ absurd (ground (arith, drop_beyond offset strings beyond))
  | no within ↦
      let ((m, rest), found, same) = >>=-eq-some (read_cstr (drop offset strings)) _ e in
      rw
        (
          drop-append_le offset strings more (omega arith),
          read_cstr-append_some (drop offset strings) more m rest found,
        )
        same
]

pub resolve-append :
    (strings : List ℕ) (rs ts : List Raw) (is js : List Item)
    → resolve strings rs ≡ some is
    → resolve strings ts ≡ some js
    → resolve strings (rs ++ ts) ≡ some (is ++ js)
unfolding resolve
resolve-append strings [] ts is js e f = ground arith
resolve-append strings (r ∷ rs) ts is js e f = elim (Option-cases (resolve_item strings r)) [
  | inl missing ↦ ground arith
  | inr (i, first) ↦ elim (Option-cases (resolve strings rs)) [
    | inl missing ↦ ground arith
    | inr (tail, others) ↦ ground (
      arith,
      first,
      others,
      resolve-append strings rs ts tail js others f,
      append_assoc i tail js,
    )
  ]
]

resolve_item-append :
    (strings more : List ℕ) (r : Raw) {i : List Item}
    → resolve_item strings r ≡ some i
    → resolve_item (strings ++ more) r ≡ some i
unfolding resolve_item
resolve_item-append strings more (begin_node n) e = e
resolve_item-append strings more end_node e = e
resolve_item-append strings more (prop o v) e = elim (Option-cases (string_at strings o)) [
  | inl missing ↦ ground arith
  | inr (n, found) ↦ ground (arith, found, string_at-append strings more o found)
]
resolve_item-append strings more nop e = e
resolve_item-append strings more finish e = e

-- What a block says stays, whatever is added to the strings.
pub resolve-append_strings :
    (strings more : List ℕ) (rs : List Raw) (is : List Item)
    → resolve strings rs ≡ some is
    → resolve (strings ++ more) rs ≡ some is
unfolding resolve
resolve-append_strings strings more [] is e = e
resolve-append_strings strings more (r ∷ rs) is e = elim (Option-cases (resolve_item strings r)) [
  | inl missing ↦ ground arith
  | inr (i, first) ↦ elim (Option-cases (resolve strings rs)) [
    | inl missing ↦ ground arith
    | inr (tail, others) ↦ ground (
      arith,
      first,
      others,
      resolve_item-append strings more r first,
      resolve-append_strings strings more rs tail others,
    )
  ]
]
