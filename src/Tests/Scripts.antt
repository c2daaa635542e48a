-- ===== src/Tests/Scripts.antt =====
-- The migration of a values.yaml at concrete inputs.
use starrocks_kubernetes_ope.Base.{String, [], ◌∷◌, Dict, ok, panic, ◌≡◌, refl, ◌<>◌, if◌then◌else◌}
use starrocks_kubernetes_ope.Scripts.Migrate.{Value, text_value, other, Yaml, Writer, migrate}
use text.Mathlib.Text.{◌==◌}

abbrev old_values : Dict Value
old_values = ("timeZone", text_value "") ∷ ("starrocksFESpec", other "replicas: 3") ∷ []

abbrev new_values : Dict Value
new_values = ("starrocks", other "timeZone: UTC") ∷ []

abbrev yaml : Yaml
yaml = record {
  unmarshal = λ content. if content == "old" then ok old_values else ok new_values;
  marshal = λ document. ok "document";
}

abbrev writer : Writer String
writer = record { write = λ written w. (ok tt, w <> written) }

-- Version 1.10.0 counts as one before 1.8.0: nothing is written.
later_minor : migrate yaml writer (ok "old") "v1.10.0" "" ≡ (ok tt, "")
unfolding migrate
later_minor = refl

-- Values with a starrocks part and no operator part cannot be taken back.
without_operator : migrate yaml writer (ok "new") "v1.7.1" "" ≡ (panic "interface conversion", "")
unfolding migrate
without_operator = refl
