-- ===== src/Base/Text/Paths.antt =====
-- filepath.Join of two elements, with the cleaning of the path.
use Prim.Native.String.{String}
use mathlib.Core.Bool.{Bool, true, false, ◌||◌}
use mathlib.Core.List.{List, [], ◌∷◌, reverse}
use starrocks_kubernetes_ope.Base.Tests.{if◌then◌else◌}
use starrocks_kubernetes_ope.Base.Text.Strings.{split, has_prefix, ◌<>◌}
use text.Mathlib.Text.{◌==◌}

-- `..` goes up one part; at the root it stays there, and in a relative path it is kept.
go_up : Bool → List String → List String
go_up true [] = []
go_up false [] = ".." ∷ []
go_up rooted (part ∷ stack) = if part == ".." then ".." ∷ part ∷ stack else stack

resolve_part : Bool → List String → String → List String
unfolding go_up
resolve_part rooted stack part =
    if part == "" || part == "."
    then stack
    else if part == ".."
    then go_up rooted stack
    else part ∷ stack

resolve_parts : Bool → List String → List String → List String
unfolding resolve_part
resolve_parts rooted stack [] = reverse stack
resolve_parts rooted stack (part ∷ parts) =
    resolve_parts rooted (resolve_part rooted stack part) parts

unfoldable pub join_by : String → List String → String
join_by sep [] = ""
join_by sep (part ∷ []) = part
join_by sep (part ∷ next ∷ parts) = part <> sep <> join_by sep (next ∷ parts)

clean_path : String → String
unfolding resolve_parts split join_by has_prefix
clean_path path =
    let rooted = has_prefix path "/" in
    let text = join_by "/" (resolve_parts rooted [] (split b'/' path)) in
    if rooted then "/" <> text else if text == "" then "." else text

-- filepath.Join(a, b)
unfoldable pub join_path : String → String → String
unfolding clean_path
join_path a b =
    if a == ""
    then if b == "" then "" else clean_path b
    else if b == ""
    then clean_path a
    else clean_path (a <> "/" <> b)
