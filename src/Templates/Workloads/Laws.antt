-- ===== src/Templates/Workloads/Laws.antt =====
-- The claims of a stateful set and the volumes of its pods:
-- pkg/k8sutils/templates/statefulset/spec.go and pkg/k8sutils/templates/pod/mount.go.
use starrocks_kubernetes_ope.Base.{
  String, List, [], ◌∷◌, ◌++◌, Bool, true, false, Result, ok, err, panic, has_prefix, if◌then◌else◌,
  ◌≡◌, ◌⊎◌, refl, sym, ◌∙◌, arith, ap, map, Bool-cases, Option-cases, is_some, inl, inr,
}
use starrocks_kubernetes_ope.Base.Results.Fallible.{◌>>=◌}
use starrocks_kubernetes_ope.Kube.{
  Volume, VolumeSource, persistent_volume_claim, empty_dir, host_path, csi, config_map, secret,
  PersistentVolumeClaim,
}
use starrocks_kubernetes_ope.Kube.Client.{Client}
use starrocks_kubernetes_ope.Api.{
  StorageVolume, special_storage_class_name, equals_ignore_case, special_of_class,
  special_of_source,
}
use starrocks_kubernetes_ope.Templates.Mounts.{
  Mounts, no_mounts, add_volume, source_of, mount_storage_volume, mount_storage_loop,
  mount_storage_volumes,
}
use starrocks_kubernetes_ope.Templates.Workloads.{has_no_claim, claim_of, pvc_list}
use mathlib.Core.List.{append_assoc, append-nil}
use text.Mathlib.Text.{◌==◌}

abbrev pub claim_in : VolumeSource → List String
claim_in (persistent_volume_claim name) = name ∷ []
claim_in empty_dir = []
claim_in (host_path source) = []
claim_in (csi source) = []
claim_in (config_map name mode) = []
claim_in (secret name) = []

-- The claims that the volumes of a pod refer to.
abbrev pub claims_in : List Volume → List String
claims_in [] = []
claims_in (v ∷ vs) = claim_in v.source ++ claims_in vs

pub claims_in-append : (xs ys : List Volume) → claims_in (xs ++ ys) ≡ claims_in xs ++ claims_in ys
claims_in-append [] ys = refl
claims_in-append (x ∷ xs) ys =
    ap (λ l. claim_in x.source ++ l) (claims_in-append xs ys)
    ∙ sym (append_assoc (claim_in x.source) (claims_in xs) (claims_in ys))

-- The names of the classes that no claim stands for, and the empty one.
abbrev IsClass : String → Type 0
IsClass class = (class ≡ "") ⊎ ((class ≡ "emptyDir") ⊎ ((class ≡ "hostPath") ⊎ (class ≡ "csi")))

special_of_class-IsClass : (class : String) → IsClass (special_of_class class)
special_of_class-IsClass class = elim (Bool-cases (equals_ignore_case class "emptyDir")) [
  | inl directory ↦ rw directory (inr (inl refl))
  | inr other ↦ elim (Bool-cases (equals_ignore_case class "hostPath")) [
    | inl path ↦ rw (other, path) (inr (inr (inl refl)))
    | inr neither ↦ elim (Bool-cases (equals_ignore_case class "csi")) [
      | inl driver ↦ rw (other, neither, driver) (inr (inr (inr refl)))
      | inr none_of_them ↦ rw (other, neither, none_of_them) (inl refl)
    ]
  ]
]

special_of_source-IsClass : (path driver : Bool) → IsClass (special_of_source path driver)
special_of_source-IsClass true driver = inr (inr (inl refl))
special_of_source-IsClass false true = inr (inr (inr refl))
special_of_source-IsClass false false = inl refl

special_storage_class_name-IsClass : (v : StorageVolume) → IsClass (special_storage_class_name v)
unfolding special_storage_class_name
special_storage_class_name-IsClass v = elim (Option-cases v.storage_class_name) [
  | inl absent ↦ rw absent (special_of_source-IsClass (is_some v.host_path) (is_some v.csi))
  | inr (class, given) ↦ rw given (special_of_class-IsClass class)
]

-- The source of a volume is a claim, of its own name, exactly where its class is not special.
claim_in-source_of :
    (v : StorageVolume)
    → claim_in (source_of v) ≡ (if special_storage_class_name v == "" then v.name ∷ [] else [])
unfolding source_of
claim_in-source_of v = elim (special_storage_class_name-IsClass v) [
  | inl plain ↦ rw plain refl
  | inr (inl directory) ↦ rw directory refl
  | inr (inr (inl path)) ↦ rw path refl
  | inr (inr (inr driver)) ↦ rw driver refl
]

-- The claim of one volume.
abbrev claimed_by : StorageVolume → List String
claimed_by v = if has_no_claim v then [] else v.name ∷ []

claimed_by-source_of :
    (v : StorageVolume)
    → has_prefix v.storage_size "0" ≡ false
    → claim_in (source_of v) ≡ claimed_by v
unfolding has_no_claim
claimed_by-source_of v sized = elim (Bool-cases (special_storage_class_name v == "")) [
  | inl plain ↦ claim_in-source_of v ∙ rw (plain, sized) refl
  | inr special ↦ claim_in-source_of v ∙ rw special refl
]

claimed_by-empty : (v : StorageVolume) → has_prefix v.storage_size "0" ≡ true → [] ≡ claimed_by v
unfolding has_no_claim
claimed_by-empty v empty = elim (Bool-cases (special_storage_class_name v == "")) [
  | inl plain ↦ rw (plain, empty) refl
  | inr special ↦ rw special refl
]

same_volumes :
    (locked : Bool) (x y : Mounts)
    → x.volumes ≡ y.volumes
    → (if locked then x else y).volumes ≡ y.volumes
same_volumes true x y same = same
same_volumes false x y same = refl

claims_in-mount_storage_volume :
    (m : Mounts) (v : StorageVolume)
    → claims_in (mount_storage_volume m v).volumes ≡ claims_in m.volumes ++ claimed_by v
unfolding mount_storage_volume add_volume
claims_in-mount_storage_volume m v =
    let appended =
      claims_in-append m.volumes (record { name = v.name; source = source_of v } ∷ []) in
    elim (Bool-cases (has_prefix v.storage_size "0")) [
      | inl skipped ↦ rw skipped (
          sym (append-nil (claims_in m.volumes))
          ∙ ap (λ l. claims_in m.volumes ++ l) (claimed_by-empty v skipped))
      | inr sized ↦
          let kept =
            appended
            ∙ ap (λ l. claims_in m.volumes ++ l)
                (append-nil (claim_in (source_of v)) ∙ claimed_by-source_of v sized) in
          rw sized (ap claims_in (same_volumes v.read_only _ _ refl) ∙ kept)
    ]

claimed : List StorageVolume → List String
claimed [] = []
claimed (v ∷ vs) = claimed_by v ++ claimed vs

claims_in-mount_storage_loop :
    (vs : List StorageVolume) (m : Mounts)
    → claims_in (mount_storage_loop m vs).volumes ≡ claims_in m.volumes ++ claimed vs
unfolding mount_storage_loop claimed
claims_in-mount_storage_loop [] m = sym (append-nil (claims_in m.volumes))
claims_in-mount_storage_loop (v ∷ vs) m =
    claims_in-mount_storage_loop vs (mount_storage_volume m v)
    ∙ ap (λ l. l ++ claimed vs) (claims_in-mount_storage_volume m v)
    ∙ append_assoc (claims_in m.volumes) (claimed_by v) (claimed vs)

abbrev pub names_of_claims : List PersistentVolumeClaim → List String
names_of_claims = map (λ claim. claim.name)

module _ (c : Client) where
  claim_of-name :
      (v : StorageVolume) (claim : PersistentVolumeClaim)
      → claim_of c v ≡ ok claim
      → claim.name ≡ v.name
  unfolding claim_of
  claim_of-name v claim made = ground arith

  with_claim :
      (v : StorageVolume) (one : Result PersistentVolumeClaim)
      (rest : Result (List PersistentVolumeClaim)) (claims : List PersistentVolumeClaim)
      (names : List String)
      → ((claim : PersistentVolumeClaim) → one ≡ ok claim → claim.name ≡ v.name)
      → ((others : List PersistentVolumeClaim) → rest ≡ ok others → names_of_claims others ≡ names)
      → (one >>= λ claim. rest >>= λ others. ok (claim ∷ others)) ≡ ok claims
      → names_of_claims claims ≡ v.name ∷ names
  with_claim v (ok claim) (ok others) claims names named same made =
      ground (arith, named claim refl, same others refl)
  with_claim v (ok claim) (err e) claims names named same made = cc
  with_claim v (ok claim) (panic p) claims names named same made = cc
  with_claim v (err e) rest claims names named same made = cc
  with_claim v (panic p) rest claims names named same made = cc

  pvc_list-names :
      (vs : List StorageVolume) (claims : List PersistentVolumeClaim)
      → pvc_list c vs ≡ ok claims
      → names_of_claims claims ≡ claimed vs
  unfolding pvc_list claimed
  pvc_list-names [] claims made = ground arith
  pvc_list-names (v ∷ vs) claims made = elim (Bool-cases (has_no_claim v)) [
    | inl without ↦ rw without (pvc_list-names vs claims (rw without at made))
    | inr with_one ↦ rw with_one (
        with_claim v (claim_of c v) (pvc_list c vs) claims (claimed vs) (claim_of-name v)
          (pvc_list-names vs) (rw with_one at made))
  ]

  -- The claims of a stateful set are, by name and in their order, those that the storage volumes of
  -- its pods refer to: no pod waits for a claim that the set does not make, and none is made in vain.
  pub pvc_list-claims :
      (vs : List StorageVolume) (claims : List PersistentVolumeClaim)
      → pvc_list c vs ≡ ok claims
      → names_of_claims claims ≡ claims_in (mount_storage_volumes vs).volumes
  unfolding mount_storage_volumes
  pvc_list-claims vs claims made =
      pvc_list-names vs claims made ∙ sym (claims_in-mount_storage_loop vs no_mounts)
