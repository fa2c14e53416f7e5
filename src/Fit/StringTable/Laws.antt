-- ===== src/Fit/StringTable/Laws.antt =====
-- The strings block always reads back: whatever has been added, every offset that was handed out
-- gives the string that it was handed out for.
use ostool.Prelude.{
  ℕ, ◌+◌, ◌^◌, ◌%◌, ◌≤◌, ◌<◌, ◌≡◌, List, [], ◌∷◌, ◌++◌, none, some, Text, length, All, replicate,
  as_u32, IsU32, arith, append-nil, length-append, length-replicate, drop-append, Option-cases, inl,
  inr, text_eq_refl, ◌⊎◌,
}
use native.Mathlib.Nat.{mod-eq_of_lt}
use ostool.Prelude.Map.{
  lookup, insert, lookup-insert, AllEntries, AllEntries-insert, lookup-AllEntries,
}
use ostool.Fit.Reader.{NoNul, string_at, read_cstr-append, string_at-append}
use ostool.Fit.StringTable.{StringTable, new, stored, add_string, get_offset, padding_needed}

-- The entry's offset fits its field, and the string stands there.
abbrev pub Stands : List ℕ → Text → ℕ → Type 0
Stands strings s offset = IsU32 offset × (string_at strings offset ≡ some s)

pub record IsValid (t : StringTable) : Type 0 where
  pub aligned : length t.strings % 4 ≡ 0
  pub stand : AllEntries (Stands t.strings) t.offsets

pub new-IsValid : IsValid new
unfolding new
new-IsValid = record { aligned = omega arith; stand = tt }

string_at-stored :
    (front : List ℕ) (n : ℕ) (s : Text)
    → NoNul s
    → string_at (front ++ stored n s) (length front) ≡ some s
unfolding string_at stored
string_at-stored front n s h =
    rw (drop-append front)
      (rw (read_cstr-append s (replicate (padding_needed (n + (length s + 1))) 0) h))

length-stored : (n : ℕ) (s : Text) → (n + length (stored n s)) % 4 ≡ 0
unfolding stored
length-stored n s = omega (
  arith,
  length-append s (0 ∷ replicate (padding_needed (n + (length s + 1))) 0),
  length-replicate {A = ℕ} (padding_needed (n + (length s + 1))) 0,
)

AllEntries-Stands :
    (strings more : List ℕ) (m : List (Text × ℕ))
    → AllEntries (Stands strings) m
    → AllEntries (Stands (strings ++ more)) m
AllEntries-Stands strings more [] h = tt
AllEntries-Stands strings more ((s, o) ∷ m) h =
    ((h.0.0, string_at-append strings more o h.0.1), AllEntries-Stands strings more m h.1)

-- How a call of `add_string` ends: a known string changes nothing; a new one is stored at the end.
pub add_string_cases :
    (t : StringTable) (s : Text)
    → ((o : ℕ) × (lookup s t.offsets ≡ some o) × (add_string t s ≡ (t, o)))
      ⊎ ((lookup s t.offsets ≡ none)
          × (add_string t s ≡ (
            record {
              strings = t.strings ++ stored (length t.strings) s;
              offsets = insert s (as_u32 (length t.strings)) t.offsets;
            },
            as_u32 (length t.strings),
          )))
unfolding add_string
add_string_cases t s = elim (Option-cases (lookup s t.offsets)) [
  | inl new_one ↦ inr (new_one, rw (new_one, add_string))
  | inr (o, known) ↦ inl (o, known, rw (known, add_string))
]

-- The strings block only grows at its end.
pub add_string-extends :
    (t : StringTable) (s : Text)
    → (more : List ℕ) × ((add_string t s).0.strings ≡ t.strings ++ more)
add_string-extends t s = elim (add_string_cases t s) [
  | inl (o, known, e) ↦ ([], rw (e, append-nil))
  | inr (absent, e) ↦ (stored (length t.strings) s, rw e)
]

pub length-add_string_le :
    (t : StringTable) (s : Text) → length t.strings ≤ length (add_string t s).0.strings
length-add_string_le t s =
    let (more, e) = add_string-extends t s in rw e (omega (arith, length-append t.strings more))

-- An offset that was handed out before gives the same string after.
pub Stands-add_string :
    (t : StringTable) (s : Text) (n : Text) (o : ℕ)
    → Stands t.strings n o
    → Stands (add_string t s).0.strings n o
Stands-add_string t s n o h =
    let (more, e) = add_string-extends t s in (h.0, rw e (string_at-append t.strings more o h.1))

-- Adding a string without a NUL, while the block stays below 4 GiB, keeps the table valid, and the
-- offset that comes back is the one on record and gives the string.
pub add_string-IsValid :
    (t : StringTable) (s : Text)
    → IsValid t
    → NoNul s
    → length (add_string t s).0.strings < 2 ^ 32
    → IsValid (add_string t s).0
      × Stands (add_string t s).0.strings s (add_string t s).1
      × (get_offset (add_string t s).0 s ≡ some (add_string t s).1)
unfolding get_offset
add_string-IsValid t s v h small = elim (add_string_cases t s) [
  | inl (o, known, e) ↦
      rw (e) (v, lookup-AllEntries (Stands t.strings) s t.offsets v.stand known, known)
  | inr (absent, e) ↦
      let here = length t.strings in
      let stands : Stands (t.strings ++ stored here s) s (as_u32 here) =
        (omega arith, rw (mod-eq_of_lt fits) (string_at-stored t.strings here s h)) in
      rw e (
        record {
          aligned = omega (arith, length-append t.strings (stored here s), length-stored here s);
          stand =
              AllEntries-insert (Stands (t.strings ++ stored here s)) s (as_u32 here) t.offsets
                stands (AllEntries-Stands t.strings (stored here s) t.offsets v.stand);
        },
        stands,
        rw (lookup-insert s s, text_eq_refl),
      )
]
  where
    fits : length t.strings < 2 ^ 32
    fits = omega (arith, length-add_string_le t s)

add_string_known :
    (t : StringTable) (s : Text) (o : ℕ) → lookup s t.offsets ≡ some o → add_string t s ≡ (t, o)
unfolding add_string
add_string_known t s o e = rw (e, add_string)

-- A string is stored once: adding it again changes nothing and gives the same offset.
pub add_string_twice :
    (t : StringTable) (s : Text) → add_string (add_string t s).0 s ≡ add_string t s
add_string_twice t s = elim (add_string_cases t s) [
  | inl (o, known, e) ↦ rw (e, e)
  | inr (absent, e) ↦ rw e (add_string_known _ s _ (rw (lookup-insert s s, text_eq_refl)))
]

-- A caller that adds strings in turn and keeps the offsets.
unfoldable pub add_all : StringTable → List Text → StringTable × List (Text × ℕ)
add_all t [] = (t, [])
add_all t (s ∷ ss) =
    let (t', o) = add_string t s in let (last, os) = add_all t' ss in (last, (s, o) ∷ os)

length-add_all_le :
    (t : StringTable) (ss : List Text) → length t.strings ≤ length (add_all t ss).0.strings
unfolding add_all
length-add_all_le t [] = omega arith
length-add_all_le t (s ∷ ss) =
    omega (arith, length-add_string_le t s, length-add_all_le (add_string t s).0 ss)

Stands-add_all :
    (t : StringTable) (ss : List Text) (n : Text) (o : ℕ)
    → Stands t.strings n o
    → Stands (add_all t ss).0.strings n o
unfolding add_all
Stands-add_all t [] n o h = h
Stands-add_all t (s ∷ ss) n o h =
    Stands-add_all (add_string t s).0 ss n o (Stands-add_string t s n o h)

add_all-Stands_from :
    (t : StringTable) (ss : List Text)
    → IsValid t
    → All NoNul ss
    → length (add_all t ss).0.strings < 2 ^ 32
    → AllEntries (Stands (add_all t ss).0.strings) (add_all t ss).1
unfolding add_all
add_all-Stands_from t [] v h small = tt
add_all-Stands_from t (s ∷ ss) v h small =
    let t' = (add_string t s).0 in
    let fits : length t'.strings < 2 ^ 32 = omega (arith, length-add_all_le t' ss) in
    let (v', stands, recorded) = add_string-IsValid t s v h.0 fits in
    (Stands-add_all t' ss s (add_string t s).1 stands, add_all-Stands_from t' ss v' h.1 small)

-- Whatever strings without a NUL are added, in any order and with any repetitions, in the finished
-- block, if it is below 4 GiB, every offset that was handed out gives its string.
pub add_all-Stands :
    (ss : List Text)
    → All NoNul ss
    → length (add_all new ss).0.strings < 2 ^ 32
    → AllEntries (Stands (add_all new ss).0.strings) (add_all new ss).1
add_all-Stands ss = add_all-Stands_from new ss new-IsValid
