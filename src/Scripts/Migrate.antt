-- ===== src/Scripts/Migrate.antt =====
-- The migration of a values.yaml between the formats of the chart: scripts/migrate-chart-value/main.go.
pub mod Laws
use starrocks_kubernetes_ope.Base.{
  String, Option, none, some, List, [], ◌∷◌, Dict, lookup, insert, or_else, Bool, true, false, not,
  ◌&&◌, Result, ok, err, panic, if◌then◌else◌, ◌<>◌,
}
use starrocks_kubernetes_ope.Base.Results.Stateful.{M, ◌>>=◌, ◌>>◌, pure, read, try}
use starrocks_kubernetes_ope.Kube.{Raw}
use Prim.Native.String.{compare}
use Prim.Native.Nat as Nat
use text.Mathlib.Text.{◌==◌}

-- A value of YAML as the tool looks at it; the keys of a mapping are texts, and what stands under
-- them is only passed on.
pub data Value : Type 0 where
  null : Value
  text_value : String → Value
  mapping : Dict Raw → Value
  other : Raw → Value

-- What is given to yaml.Marshal.
pub data Document : Type 0 where
  bare : Dict Value → Document
  headed : (header : String) → Dict Value → Document
  value_of : Value → Document

-- The library yaml, and the writer.
pub record Yaml : Type 0 where
  pub unmarshal : String → Result (Dict Value)
  pub marshal : Document → Result String

pub record Writer (W : Type 0) : Type 0 where
  pub write : String → M W (Unit {0})

abbrev pub operator_keys : List String
operator_keys = "global" ∷ "timeZone" ∷ "nameOverride" ∷ "starrocksOperator" ∷ []

abbrev pub starrocks_keys : List String
starrocks_keys =
    "nameOverride" ∷ "initPassword" ∷ "timeZone" ∷ "datadog" ∷ "starrocksCluster"
    ∷ "starrocksFESpec" ∷ "starrocksCnSpec" ∷ "starrocksBeSpec" ∷ "secrets" ∷ "configMaps"
    ∷ "feProxy" ∷ []

abbrev pub is_null : Value → Bool
is_null null = true
is_null _ = false

-- `fields[key]`, where a missing key reads as nil
unfoldable pub value_at : (key : String) → Dict Value → Value
unfolding lookup
value_at key fields = or_else (lookup key fields) null

-- The function getValue of Write.
unfoldable pub default_value : (key : String) → Value
default_value key =
    if key == "timeZone"
    then text_value "Asia/Shanghai"
    else if key == "nameOverride"
    then text_value "kube-starrocks"
    else null

abbrev pub value_or_default : (key : String) → Value → Value
unfolding default_value
value_or_default key null = default_value key
value_or_default key (text_value t) = if t == "" then default_value key else text_value t
value_or_default key value = value

-- The value that a key of the list gets.
unfoldable pub chosen : (key : String) → (original : Dict Value) → Value
unfolding value_at value_or_default
chosen key original = value_or_default key (value_at key original)

put : (key : String) → Value → Dict Value → Dict Value
unfolding insert
put key null fields = fields
put key value fields = insert key value fields

-- The loop over the keys.
unfoldable pub select_fields :
    (original : Dict Value) → (keys : List String) → (fields : Dict Value) → Dict Value
unfolding chosen put
select_fields original [] fields = fields
select_fields original (key ∷ keys) fields =
    select_fields original keys (put key (chosen key original) fields)

-- AddHeader, without its call of yaml.Marshal
unfoldable pub with_header : Dict Value → (header : String) → Document
with_header fields header = if not (header == "") then headed header fields else bare fields

-- `targetChartVersion < NEW_VERSION`, on texts
unfoldable pub is_before_new : (version : String) → Bool
is_before_new version = elim (compare version "v1.8.0") [ Nat.lt ↦ true | _ ↦ false ]

-- delete(m, key)
unfoldable pub remove_key : (key : String) → Dict Raw → Dict Raw
remove_key key [] = []
remove_key key (entry ∷ entries) =
    let rest = remove_key key entries in if entry.0 == key then rest else entry ∷ rest

-- The assertion of the type of the mapping, and the two deletions.
without_duplicates : Value → Result Value
unfolding remove_key
without_duplicates (mapping entries) =
    ok (mapping (remove_key "nameOverride" (remove_key "timeZone" entries)))
without_duplicates _ = panic "interface conversion"

module _ {W : Type 0} (yaml : Yaml) (writer : Writer W) where
  unfoldable pub write_fields : Dict Value → (header : String) → M W (Unit {0})
  unfolding with_header
  write_fields [] header = if not (header == "") then writer.write (header <> ":") else pure tt
  write_fields fields header = read (λ _. yaml.marshal (with_header fields header)) >>= writer.write

  -- Write
  unfoldable pub write_section :
      (original : Dict Value) → (keys : List String) → (header : String) → M W (Unit {0})
  unfolding select_fields write_fields
  write_section original keys header = write_fields (select_fields original keys []) header

  -- The branch of Do for values of an old chart; the error of the blank line is dropped.
  unfoldable pub upgrade : (original : Dict Value) → M W (Unit {0})
  unfolding write_section
  upgrade original = do
    write_section original operator_keys "operator"
    blank ← try (writer.write "\n")
    write_section original starrocks_keys "starrocks"

  -- The branch of Do for values of a new chart.
  unfoldable pub downgrade : (operator starrocks : Value) → M W (Unit {0})
  unfolding without_duplicates
  downgrade operator starrocks = do
    stripped ← read (λ _. without_duplicates operator)
    first ← read (λ _. yaml.marshal (value_of stripped))
    second ← read (λ _. yaml.marshal (value_of starrocks))
    writer.write (first <> "\n" <> second)

  unfoldable pub migrate_values : (version : String) → Dict Value → M W (Unit {0})
  unfolding upgrade downgrade value_at is_before_new
  migrate_values version values =
      if is_null (value_at "operator" values) && is_null (value_at "starrocks" values)
      then (if is_before_new version then pure tt else upgrade values)
      else if is_before_new version
      then downgrade (value_at "operator" values) (value_at "starrocks" values)
      else pure tt

  -- Do, of what io.ReadAll yields
  unfoldable pub migrate : (input : Result String) → (version : String) → M W (Unit {0})
  unfolding migrate_values
  migrate input version = do
    content ← read (λ _. input)
    values ← read (λ _. yaml.unmarshal content)
    migrate_values version values
