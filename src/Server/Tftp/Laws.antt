-- ===== src/Server/Tftp/Laws.antt =====
-- When a path stays within the directory of its session.
use ostool.Prelude.{
  ◌≡◌, ◌≢◌, refl, sym, ap, ◌∙◌, inl, inr, false, ◌||◌, List, [], ◌∷◌, arith, Bool-cases, All, Text,
  text_eq,
}
use mathlib.Core.Path.{subst}
use ostool.Prelude.Split.{split-IsPiece, split-append, split_one}
use ostool.Server.Outcome.{Result, ok, err, is_empty}
use ostool.Server.BoardPool.{trim}
use ostool.Server.Tftp.{
  slash, dot, dot_dot, segments, Component, component_of, later_components, all_components,
  components, PathError, pushed, path_parts, join_parts, ends_with, with_slashes, joined_parts,
  normalize_relative_path,
}

abbrev NoSlash : Text → Type 0
NoSlash = All (λ c. c ≢ slash)

-- A segment that goes down one directory.
abbrev pub IsDown : Text → Type 0
IsDown s = (is_empty s ≡ false) × (text_eq s dot ≡ false) × (text_eq s dot_dot ≡ false)

-- No white space at the ends.
abbrev pub IsTrimmed : Text → Type 0
IsTrimmed s = trim s ≡ s

-- The parts are the segments of the path that they are joined to.
segments-join_parts :
    (s : Text) (ss : List Text) → All NoSlash (s ∷ ss) → segments (join_parts (s ∷ ss)) ≡ s ∷ ss
unfolding join_parts
segments-join_parts s [] h = split_one slash s h.0
segments-join_parts s (t ∷ ss) h =
    split-append slash s (join_parts (t ∷ ss)) h.0 ∙ ap (λ r. s ∷ r) (segments-join_parts t ss h.1)

abbrev IsPlain : Text → Type 0
IsPlain s = NoSlash s × IsTrimmed s

abbrev IsSafe : Text → Type 0
IsSafe s = NoSlash s × IsDown s

-- A part that is pushed, and those after it.
pushed-IsSafe :
    (s : Text) (r : Result PathError (List Text)) (parts : List Text)
    → IsSafe s
    → ((rest : List Text) → r ≡ ok rest → All IsSafe rest)
    → pushed s r ≡ ok parts
    → All IsSafe parts
pushed-IsSafe s (err e) parts safe more h = absurd (cc)
pushed-IsSafe s (ok rest) parts safe more h =
    subst (λ (r : Result PathError (List Text)). All IsSafe (parts_of r)) h (safe, more rest refl)
  where
    parts_of : Result PathError (List Text) → List Text
    parts_of (ok ps) = ps
    parts_of (err e) = []

component_of-IsSafe :
    (s : Text) (cs : List Component) (parts : List Text)
    → IsPlain s
    → is_empty s ≡ false
    → text_eq s dot ≡ false
    → ((rest : List Text) → path_parts cs ≡ ok rest → All IsSafe rest)
    → path_parts (component_of s ∷ cs) ≡ ok parts
    → All IsSafe parts
unfolding path_parts
component_of-IsSafe s cs parts (clean, trimmed) full down more h =
    elim (Bool-cases (text_eq s dot_dot)) [
      | inl up ↦ absurd (cc (up, h))
      | inr other ↦
          pushed-IsSafe s (path_parts cs) parts (clean, (full, down, other)) more
            (sym (rw (other, trimmed, full) refl) ∙ h)
    ]

later_components-IsSafe :
    (ss : List Text) (parts : List Text)
    → All IsPlain ss
    → path_parts (later_components ss) ≡ ok parts
    → All IsSafe parts
unfolding later_components path_parts
later_components-IsSafe [] [] h e = tt
later_components-IsSafe [] (p ∷ ps) h e = absurd (cc)
later_components-IsSafe (s ∷ ss) parts h e = elim (Bool-cases (is_empty s || text_eq s dot)) [
  | inl skipped ↦ later_components-IsSafe ss parts h.1 (rw skipped at e)
  | inr taken ↦
      component_of-IsSafe s (later_components ss) parts h.0 (ground arith) (ground arith)
        (λ rest g. later_components-IsSafe ss rest h.1 g) (rw taken at e)
]

all_components-IsSafe :
    (ss : List Text) (parts : List Text)
    → All IsPlain ss
    → path_parts (all_components ss) ≡ ok parts
    → All IsSafe parts
unfolding path_parts later_components
all_components-IsSafe [] parts h e = later_components-IsSafe [] parts tt e
all_components-IsSafe ([] ∷ []) parts h e = later_components-IsSafe [] parts tt e
all_components-IsSafe ([] ∷ s ∷ ss) parts h e = absurd (cc)
all_components-IsSafe ((c ∷ cs) ∷ ss) parts h e = elim (Bool-cases (text_eq (c ∷ cs) dot)) [
  | inl here ↦ absurd (cc (here, e))
  | inr other ↦
      component_of-IsSafe (c ∷ cs) (later_components ss) parts h.0 (unfold is_empty in refl) other
        (λ rest g. later_components-IsSafe ss rest h.1 g) (rw other at e)
]

IsSafe-IsDown : (parts : List Text) → All IsSafe parts → All IsDown parts
IsSafe-IsDown [] h = tt
IsSafe-IsDown (p ∷ ps) h = (h.0.1, IsSafe-IsDown ps h.1)

IsSafe-NoSlash : (parts : List Text) → All IsSafe parts → All NoSlash parts
IsSafe-NoSlash [] h = tt
IsSafe-NoSlash (p ∷ ps) h = (h.0.0, IsSafe-NoSlash ps h.1)

All-IsPlain : (ss : List Text) → All NoSlash ss → All IsTrimmed ss → All IsPlain ss
All-IsPlain [] n t = tt
All-IsPlain (s ∷ ss) n t = ((n.0, t.0), All-IsPlain ss n.1 t.1)

joined_parts-IsDown :
    (result : Result PathError (List Text)) (r : Text)
    → ((parts : List Text) → result ≡ ok parts → All IsSafe parts)
    → joined_parts result ≡ ok r
    → All IsDown (segments r)
joined_parts-IsDown (err e) r safe h = absurd (cc)
joined_parts-IsDown (ok []) r safe h = absurd (cc)
joined_parts-IsDown (ok (p ∷ ps)) r safe h =
    let parts = safe (p ∷ ps) refl in
    subst (λ (x : Result PathError Text). All IsDown (segments (text_of x))) h
      (subst (All IsDown) (sym (segments-join_parts p ps (IsSafe-NoSlash (p ∷ ps) parts)))
        (IsSafe-IsDown (p ∷ ps) parts))
  where
    text_of : Result PathError Text → Text
    text_of (ok t) = t
    text_of (err e) = []

-- A path that is accepted, and none of whose segments has white space at its ends, is normalised to
-- one whose every segment goes down one directory: none is empty, `.` or `..`, so that the file stays
-- below the directory of the session.
pub normalize_relative_path-IsDown :
    (path r : Text)
    → normalize_relative_path path ≡ ok r
    → All IsTrimmed (segments (with_slashes path))
    → All IsDown (segments r)
unfolding normalize_relative_path components
normalize_relative_path-IsDown path r h trimmed = elim (Bool-cases (is_empty (with_slashes path))) [
  | inl none_left ↦ absurd (cc (none_left, h))
  | inr full ↦ elim (Bool-cases (ends_with slash (with_slashes path))) [
    | inl open_end ↦ absurd (cc (full, open_end, h))
    | inr closed ↦
        joined_parts-IsDown (path_parts (components (with_slashes path))) r
          (λ parts e.
            all_components-IsSafe (segments (with_slashes path)) parts
              (All-IsPlain _ (split-IsPiece slash (with_slashes path)) trimmed) e)
          (rw (full, closed) at h)
  ]
]
