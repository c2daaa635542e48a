-- ===== src/Templates/Versions.antt =====
-- Versions of images: pkg/k8sutils/templates/pod/version_compare.go. An int of Go has 64 bits.
pub mod Laws
use starrocks_kubernetes_ope.Base.{
  String, ℤ, Option, none, some, List, [], ◌∷◌, Bool, true, false, Result, ok, err, failure,
  wrapped, Error, ltz, eqz, parse_int, split, contains, head_or, last_or, if◌then◌else◌, ◌<>◌, ◌&&◌,
}
use starrocks_kubernetes_ope.Base.Results.Fallible.{◌>>=◌}

pub record Version : Type 0 where
  pub major : ℤ
  pub minor : ℤ
  pub patch : ℤ

atoi : (part : String) → String → Result ℤ
unfolding parse_int
atoi part text = elim (parse_int 64 text) [
  | none ↦ err (failure ("invalid " <> part <> " version: " <> text))
  | some n ↦ ok n
]

parse_parts : (version : String) → List String → Result Version
unfolding atoi
parse_parts version (a ∷ b ∷ c ∷ []) = do
  x ← atoi "major" a
  y ← atoi "minor" b
  z ← atoi "patch" c
  ok (record { major = x; minor = y; patch = z })
parse_parts version _ = err (failure ("invalid version format: " <> version))

-- parseVersion
unfoldable pub parse_version : String → Result Version
unfolding parse_parts split
parse_version version = parse_parts version (split b'.' (head_or "" (split b'-' version)))

wrap_error : {A : Type 0} → String → Result A → Result A
wrap_error text (err e) = err (wrapped text e)
wrap_error text r = r

-- The loop of IsLowerThanAny.
unfoldable is_lower : String → Version → List String → Result Bool
unfolding parse_version wrap_error
is_lower text check [] = err (failure ("version " <> text <> " not in target versions"))
is_lower text check (t ∷ ts) =
    let rest = is_lower text check ts in
    wrap_error ("failed to parse target version " <> t) (parse_version t) >>= λ target.
    if eqz check.major target.major && eqz check.minor target.minor
    then ok (ltz check.patch target.patch)
    else rest

-- IsLowerThanAny
unfoldable pub is_lower_than_any : String → List String → Result Bool
unfolding is_lower parse_version wrap_error contains
is_lower_than_any version targets =
    if contains version "latest"
    then ok false
    else (wrap_error ("failed to parse check version " <> version) (parse_version version)
        >>= λ check. is_lower version check targets)

-- GetImageVersion: what follows the last colon, or the whole image
unfoldable pub get_image_version : String → String
unfolding split
get_image_version image = last_or "" (split b':' image)
