-- ===== src/Templates/Versions/Laws.antt =====
-- What an answer of IsLowerThanAny says: pkg/k8sutils/templates/pod/version_compare.go.
use starrocks_kubernetes_ope.Base.{
  String, List, [], ◌∷◌, true, ok, eqz, eqz_iff, contains, ◌<ℤ◌, ◌≡◌, arith, ◌&&◌, Any, here, there,
  Bool-cases, Result-cases, inl, inr,
}
use starrocks_kubernetes_ope.Templates.Versions.{
  Version, parse_version, is_lower, is_lower_than_any, wrap_error,
}

-- A target of the same major and minor version, with a higher patch.
abbrev pub IsAbove : Version → String → Type 0
IsAbove check text =
    (target : Version) × (parse_version text ≡ ok target)
    × (check.major ≡ target.major)
    × (check.minor ≡ target.minor)
    × (check.patch <ℤ target.patch)

is_lower_sound :
    (text : String) (check : Version) (targets : List String)
    → is_lower text check targets ≡ ok true
    → Any (IsAbove check) targets
unfolding is_lower wrap_error
is_lower_sound text check [] h = absurd (ground (arith, h))
is_lower_sound text check (t ∷ ts) h = elim (Result-cases (parse_version t)) [
  | inr (inl (e, bad)) ↦ absurd (ground (arith, rw bad at h))
  | inr (inr (p, bad)) ↦ absurd (ground (arith, rw bad at h))
  | inl (target, parsed) ↦
      elim (Bool-cases (eqz check.major target.major && eqz check.minor target.minor)) [
        | inl same ↦ here (
          target,
          parsed,
          ground (arith, eqz_iff check.major target.major, same),
          ground (arith, eqz_iff check.minor target.minor, same),
          ground (arith, rw (parsed, same) at h),
        )
        | inr other ↦ there (is_lower_sound text check ts (rw (parsed, other) at h))
      ]
]

-- Where IsLowerThanAny answers "lower", the version is one of three numbers and some target has the
-- same major and minor number and a higher patch.
pub is_lower_than_any_sound :
    (version : String) (targets : List String)
    → is_lower_than_any version targets ≡ ok true
    → (check : Version) × (parse_version version ≡ ok check) × Any (IsAbove check) targets
unfolding is_lower_than_any wrap_error
is_lower_than_any_sound version targets h = elim (Bool-cases (contains version "latest")) [
  | inl latest ↦ absurd (ground (arith, rw latest at h))
  | inr other ↦ elim (Result-cases (parse_version version)) [
    | inr (inl (e, bad)) ↦ absurd (ground (arith, rw (other, bad) at h))
    | inr (inr (p, bad)) ↦ absurd (ground (arith, rw (other, bad) at h))
    | inl (check, parsed) ↦
        (check, parsed, is_lower_sound version check targets (rw (other, parsed) at h))
  ]
]
