-- ===== src/Tests/Tftp.antt =====
-- ostool-server: paths of the files of a session.
use ostool.Prelude.{◌≡◌, refl, All, codes, text_eq}
use ostool.Prelude.Split.{split}
use ostool.Server.Outcome.{ok, err, is_empty}
use ostool.Server.BoardPool.{trim, trim_start, trim_end, is_whitespace}
use ostool.Server.Tftp.{
  segments, components, later_components, path_parts, join_parts, ends_with, with_slashes,
  normalize_relative_path, not_relative,
}
use ostool.Server.Tftp.Laws.{IsDown, normalize_relative_path-IsDown}

-- Backslashes are slashes, and a double slash is one.
accepted : normalize_relative_path (codes " pxe\\linux//a.conf") ≡ ok (codes "pxe/linux/a.conf")
unfolding normalize_relative_path with_slashes trim trim_start trim_end is_whitespace split
    components later_components path_parts join_parts ends_with is_empty text_eq
accepted = refl

absolute : normalize_relative_path (codes "/boot/Image") ≡ err not_relative
unfolding normalize_relative_path with_slashes trim trim_start trim_end is_whitespace split
    components later_components path_parts join_parts ends_with is_empty text_eq
absolute = refl

-- White space hides `..` from the test on the components, and is taken away behind it.
leaves_directory : normalize_relative_path (codes ".. /.. /x") ≡ ok (codes "../../x")
unfolding normalize_relative_path with_slashes trim trim_start trim_end is_whitespace split
    components later_components path_parts join_parts ends_with is_empty text_eq
leaves_directory = refl

normalize_relative_path-IsDown_example : All IsDown (segments (codes "pxe/linux/a.conf"))
unfolding with_slashes trim trim_start trim_end is_whitespace split is_empty
normalize_relative_path-IsDown_example =
    normalize_relative_path-IsDown (codes " pxe\\linux//a.conf") (codes "pxe/linux/a.conf") accepted
      (refl, (refl, (refl, (refl, tt))))
