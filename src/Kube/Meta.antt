-- ===== src/Kube/Meta.antt =====
-- metav1.ObjectMeta, and the keys of the API server's store.
use starrocks_kubernetes_ope.Base.{
  String, ℤ, Option, some, List, Dict, lookup, insert, or_else, [], ◌≡◌, lookup-insert,
  if◌then◌else◌,
}
use text.Mathlib.Text.{◌==◌}

-- A value that the program carries and never looks into.
abbrev pub Raw : Type 0
Raw = String

pub record OwnerReference : Type 0 where
  pub api_version : String
  pub kind : String
  pub name : String
  pub uid : String

pub record ObjectMeta : Type 0 where
  pub name : String
  pub namespace : String
  pub uid : String
  pub labels : Dict String
  pub annotations : Option (Dict String)
  pub finalizers : Option (List String)
  pub owner_references : List OwnerReference
  pub resource_version : String
  pub generation : ℤ
  pub deletion_timestamp : Option ℤ

-- types.NamespacedName
pub record Key : Type 0 where
  pub namespace : String
  pub name : String

abbrev pub key_of : ObjectMeta → Key
key_of m = record { namespace = m.namespace; name = m.name }

-- `annotations[k]`, also of a nil map
unfoldable pub annotation : String → ObjectMeta → Option String
unfolding lookup
annotation k m = lookup k (or_else m.annotations [])

-- The methods of client.Object: an object's metadata, read and written.
pub record Access (Obj : Type 0) : Type 0 where
  pub meta : Obj → ObjectMeta
  pub with_meta : ObjectMeta → Obj → Obj

-- `annotations[k] = v`, which makes the map first where it is nil
unfoldable pub annotate : String → String → ObjectMeta → ObjectMeta
unfolding insert
annotate k v m = record m { annotations = some (insert k v (or_else m.annotations [])) }

pub annotation-annotate :
    (j k v : String) (m : ObjectMeta)
    → annotation j (annotate k v m) ≡ (if k == j then some v else annotation j m)
unfolding annotation annotate
annotation-annotate j k v m = lookup-insert k j v (or_else m.annotations [])
