-- ===== src/Scripts/Migrate/Laws.antt =====
-- What the migration keeps: scripts/migrate-chart-value/main.go.
use starrocks_kubernetes_ope.Base.{
  String, Option, none, some, List, Dict, lookup, any, ◌≡◌, if◌then◌else◌,
}
use starrocks_kubernetes_ope.Base.Results.Stateful.{M, ◌>>=◌, read}
use starrocks_kubernetes_ope.Scripts.Migrate.{Value, null, Yaml, Writer, headed, chosen}
use text.Mathlib.Text.{◌==◌}

-- What a map holds under a key that has been given a value, which nil leaves out.
abbrev pub present : Value → Option Value
present null = none
present value = some value

-- A section holds, under each key of its list, the value that the key gets, and nothing else.
abbrev pub IsSection :
    (original : Dict Value) → (keys : List String) → (fields : Dict Value) → Type 0
IsSection original keys fields =
    (j : String)
    → lookup j fields ≡ (if any (λ key. key == j) keys then present (chosen j original) else none)

module _ {W : Type 0} (yaml : Yaml) (writer : Writer W) where
  -- A section under its header, as YAML.
  abbrev pub emit : (header : String) → Dict Value → M W (Unit {0})
  emit header fields = read (λ _. yaml.marshal (headed header fields)) >>= writer.write
