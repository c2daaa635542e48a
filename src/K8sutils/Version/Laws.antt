-- ===== src/K8sutils/Version/Laws.antt =====
-- The version of the autoscaler that a server leads to: pkg/k8sutils/k8sutils.go and
-- pkg/apis/starrocks/v1/auto_scale.go.
use Prim.Native.Nat.{ℕ, ◌≤◌}
use Prim.Native.Char.{code}
use text.Mathlib.TextLemmas.{nil-append, cons-append}
use starrocks_kubernetes_ope.Base.{
  String, some, pos, is_digit, parse_int, ◌<>◌, true, false, ◌≡◌, ◌↔◌, refl, ap, arith,
}
use starrocks_kubernetes_ope.Kube.Client.{Settings}
use starrocks_kubernetes_ope.Api.{auto_scaler_v2, version_unset, complete_version}
use starrocks_kubernetes_ope.K8sutils.Version.{clean_minor_version, with_server_version}

-- A text of digits, and one without any.
abbrev pub IsNumeral : String → Type 0
IsNumeral String.[] = Unit
IsNumeral (String.◌∷◌ c s) = (is_digit (code c) ≡ true) × IsNumeral s

abbrev pub HasNoDigit : String → Type 0
HasNoDigit String.[] = Unit
HasNoDigit (String.◌∷◌ c s) = (is_digit (code c) ≡ false) × HasNoDigit s

clean_minor_version-suffix : (s : String) → HasNoDigit s → clean_minor_version s ≡ ""
unfolding clean_minor_version
clean_minor_version-suffix String.[] h = refl
clean_minor_version-suffix (String.◌∷◌ c s) (other, rest) =
    rw other (clean_minor_version-suffix s rest)

clean_minor_version-numeral :
    (s suffix : String) → IsNumeral s → HasNoDigit suffix → clean_minor_version (s <> suffix) ≡ s
unfolding clean_minor_version
clean_minor_version-numeral String.[] suffix h free =
    rw (nil-append suffix) (clean_minor_version-suffix suffix free)
clean_minor_version-numeral (String.◌∷◌ c s) suffix (digit, rest) free =
    rw (cons-append c s suffix, digit)
      (ap (String.◌∷◌ c) (clean_minor_version-numeral s suffix rest free))

-- On a server of major version 1, whose minor version is a numeral, of a number that an int of 64
-- bits holds, and a suffix without digits, such as the plus of a cloud provider, an autoscaling
-- policy that names no version leads to version 2 of the autoscaler exactly from minor version 26
-- on.
pub complete_version_of_server_iff :
    (numeral suffix : String) (n : ℕ) (settings : Settings)
    → IsNumeral numeral
    → HasNoDigit suffix
    → parse_int 64 numeral ≡ some (pos n)
    → let known = with_server_version "1" (numeral <> suffix) settings in
      (complete_version version_unset known.kube_major_version known.kube_minor_version
        ≡ auto_scaler_v2)
      ↔ (26 ≤ n)
unfolding with_server_version complete_version
complete_version_of_server_iff numeral suffix n settings digits free number =
    rw (clean_minor_version-numeral numeral suffix digits free, number) (ground arith)
