-- ===== src/Server/Tftp.antt =====
-- ostool-server/src/tftp/files.rs: where a file of a session is put. A path is its code points, and
-- `Path::components` that of Unix: an empty segment is skipped, and so is `.` but at the start.
pub mod Laws
use ostool.Prelude.{
  ℕ, zero, suc, ◌+◌, ◌-◌, ◌*◌, ◌/◌, ◌%◌, ◌^◌, ◌≤◌, ◌<◌, min, ◌≡◌, ◌≢◌, ◌↔◌, ◌⊎◌, refl, sym, ap, ◌∙◌,
  inl, inr, Bool, true, false, not, ◌&&◌, ◌||◌, Option, none, some, List, [], ◌∷◌, ◌++◌, map,
  append-nil, append_assoc, arith, ltb, leb, ◌==◌, if◌then◌else◌, ltb→lt, lt→ltb, ==_iff, ==_refl,
  Bool-cases, Option-cases, and_true, length, get_elem?, get_or, take, drop, replicate, All,
  length-append, All-append, IsByte, Text, codes, text_eq, text_eq_iff, text_eq_refl, text_lt,
}
use ostool.Prelude.Split.{split}
use ostool.Server.Outcome.{Result, ok, err, is_empty}
use ostool.Server.BoardPool.{trim}

abbrev pub slash : ℕ
slash = 47

abbrev pub backslash : ℕ
backslash = 92

abbrev pub dot : Text
dot = codes "."

abbrev pub dot_dot : Text
dot_dot = codes ".."

-- What stands between the slashes.
abbrev pub segments : Text → List Text
segments = split slash

pub data Component : Type 0 where
  root_dir cur_dir parent_dir : Component
  normal : Text → Component

abbrev pub component_of : Text → Component
component_of s = if text_eq s dot_dot then parent_dir else normal s

-- The components behind the first segment.
unfoldable pub later_components : List Text → List Component
later_components [] = []
later_components (s ∷ ss) =
    let rest = later_components ss in
    if is_empty s || text_eq s dot then rest else component_of s ∷ rest

abbrev pub all_components : List Text → List Component
all_components [] = []
all_components ([] ∷ []) = []
all_components ([] ∷ s ∷ ss) = root_dir ∷ later_components (s ∷ ss)
all_components ((c ∷ cs) ∷ ss) =
    (if text_eq (c ∷ cs) dot then cur_dir else component_of (c ∷ cs)) ∷ later_components ss

-- `Path::new(path).components()`
unfoldable pub components : Text → List Component
components path = all_components (segments path)

pub data PathError : Type 0 where
  no_path trailing_slash invalid_segment dot_segment dot_dot_segment not_relative : PathError

abbrev pub pushed : Text → Result PathError (List Text) → Result PathError (List Text)
pushed part (ok parts) = ok (part ∷ parts)
pushed part (err e) = err e

-- The loop over the components.
unfoldable pub path_parts : List Component → Result PathError (List Text)
path_parts [] = ok []
path_parts (normal s ∷ cs) =
    let rest = path_parts cs in
    if is_empty (trim s) then err invalid_segment else pushed (trim s) rest
path_parts (cur_dir ∷ cs) = err dot_segment
path_parts (parent_dir ∷ cs) = err dot_dot_segment
path_parts (root_dir ∷ cs) = err not_relative

-- `parts.join("/")`
unfoldable pub join_parts : List Text → Text
join_parts [] = []
join_parts (s ∷ []) = s
join_parts (s ∷ t ∷ ss) = s ++ (slash ∷ join_parts (t ∷ ss))

unfoldable pub ends_with : ℕ → Text → Bool
ends_with x [] = false
ends_with x (c ∷ []) = c == x
ends_with x (c ∷ d ∷ cs) = ends_with x (d ∷ cs)

-- `path.trim().replace('\\', "/")`
unfoldable pub with_slashes : Text → Text
with_slashes path = map (λ c. if c == backslash then slash else c) (trim path)

abbrev pub joined_parts : Result PathError (List Text) → Result PathError Text
joined_parts (err e) = err e
joined_parts (ok []) = err no_path
joined_parts (ok (part ∷ parts)) = ok (join_parts (part ∷ parts))

unfoldable pub normalize_relative_path : Text → Result PathError Text
normalize_relative_path path =
    let normalized = with_slashes path in
    if is_empty normalized
    then err no_path
    else if ends_with slash normalized
    then err trailing_slash
    else joined_parts (path_parts (components normalized))

abbrev pub in_session : Text → Result PathError Text → Result PathError Text
in_session session_id (err e) = err e
in_session session_id (ok relative_path) =
    ok (codes "ostool/sessions/" ++ (session_id ++ (slash ∷ relative_path)))

unfoldable pub session_relative_path : Text → Text → Result PathError Text
session_relative_path session_id relative_path =
    in_session session_id (normalize_relative_path relative_path)
