-- ===== src/Controllers/Warehouse/Laws.antt =====
-- What an error of a sub-controller leads to: pkg/controllers/starrockswarehouse_controller.go.
use starrocks_kubernetes_ope.Base.{
  Option, some, List, ◌∷◌, Result, ok, err, Error, ◌≡◌, refl, if◌then◌else◌, Bool, true, false,
  Bool-cases, inl, inr, ap, ◌∙◌, ◌⊎◌, ◌↔◌, Sentinel, sentinel, wrapped, not_found, conflict,
  no_match, failure, is_error, err_spec_is_missing, err_starrocks_cluster_is_missing,
  err_fe_is_not_ready, err_failed_to_get_fe_feature_list, arith,
}
use starrocks_kubernetes_ope.Base.Results.Stateful.{and_then, ◌>>◌}
use starrocks_kubernetes_ope.Kube.{Key}
use starrocks_kubernetes_ope.Api.{StarRocksWarehouse, StarRocksCnStatus}
use starrocks_kubernetes_ope.Controllers.Warehouse.{
  Local, WarehouseSubController, WarehouseClient, failed_status, is_handled, mark_failed,
  update_warehouse_status, update_local, after_sync, sync_all, reconcile_found, reconcile_warehouse,
  reconcile, initialised, with_failure, with_world, give_up,
}

-- The error, under the texts that wrap it, is one of the four that end a reconcile without another
-- try: the specification is missing, the cluster of the warehouse is missing, its FE is not ready,
-- the list of the FE's features cannot be had.
pub IsFinal : Error → Type 0
IsFinal (wrapped text e) = IsFinal e
IsFinal (sentinel k) =
    (k ≡ err_spec_is_missing)
    ⊎ (k ≡ err_starrocks_cluster_is_missing)
    ⊎ (k ≡ err_fe_is_not_ready)
    ⊎ (k ≡ err_failed_to_get_fe_feature_list)
IsFinal _ = ⊥

is_handled_sentinel_iff : (k : Sentinel) → (is_handled (sentinel k) ≡ true) ↔ IsFinal (sentinel k)
unfolding is_handled IsFinal is_error
is_handled_sentinel_iff k = ground arith

is_handled_iff : (e : Error) → (is_handled e ≡ true) ↔ IsFinal e
unfolding is_handled IsFinal is_error
is_handled_iff (sentinel k) = is_handled_sentinel_iff k
is_handled_iff (wrapped text e) = is_handled_iff e
is_handled_iff (not_found text) = ground arith
is_handled_iff (conflict text) = ground arith
is_handled_iff (no_match text) = ground arith
is_handled_iff (failure text) = ground arith

-- The answer to an error: none to a final one, else the error itself.
abbrev pub Answers : Error → Result (Unit {0}) → Type 0
Answers e r = (IsFinal e × (r ≡ ok tt)) ⊎ ((¬ IsFinal e) × (r ≡ err e))

answers : (e : Error) → Answers e (if is_handled e then ok tt else err e)
answers e = elim (Bool-cases (is_handled e)) [
  | inl handled ↦ inl ((is_handled_iff e).0 handled, rw handled refl)
  | inr other ↦ inr ((λ final. cc ((is_handled_iff e).1 final, other)), rw other refl)
]

module _ {W : Type 0} (client : WarehouseClient W) where
  unfoldable pub marked : Error → StarRocksCnStatus → Local W → Local W
  marked e status l = record l {
    warehouse = record (l.warehouse) { status = some (failed_status e status) };
  }

  -- The answer to an error whose status is written.
  answer_to : Error → Bool → Local W → Result (Option (Unit {0})) × Local W
  answer_to e true l = (ok (some tt), l)
  answer_to e false l = (err e, l)

  after_sync-err :
      (e : Error) (status : StarRocksCnStatus) (l : Local W) (w : W)
      → l.warehouse.status ≡ some status
      → update_warehouse_status client (marked e status l).warehouse l.world ≡ (ok tt, w)
      → after_sync client (err e) l
        ≡ answer_to e (is_handled e) (record (marked e status l) { world = w })
  unfolding after_sync mark_failed update_local marked answer_to give_up
  after_sync-err e status l w has_status updated =
      ap
        (λ o.
          and_then (with_failure e l o)
            (λ _. update_local client >> give_up client e (is_handled e)))
        has_status
      ∙ ap (λ r. and_then (with_world (marked e status l) r) (λ _. give_up client e (is_handled e)))
          updated
      ∙ gives_up (is_handled e) (record (marked e status l) { world = w })
    where
      gives_up : (handled : Bool) (l : Local W) → give_up client e handled l ≡ answer_to e handled l
      gives_up true l = refl
      gives_up false l = refl

  -- A sub-controller that cannot synchronise the warehouse ends the reconcile. Where the write of
  -- the status, with the phase Failed and the error's text, succeeds, the answer is the error, or
  -- none for these four: the specification is missing, the cluster of the warehouse is missing, its
  -- FE is not ready, the list of the FE's features cannot be had.
  pub reconcile-sync_error :
      (controller : WarehouseSubController W) (controllers : List (WarehouseSubController W))
      (key : Key) (warehouse : StarRocksWarehouse) (status : StarRocksCnStatus) (l : Local W)
      (e : Error) (w w' : W)
      → client.get_warehouse key w ≡ ok warehouse
      → controller.sync_warehouse (record { warehouse = initialised warehouse; world = w })
        ≡ (err e, l)
      → l.warehouse.status ≡ some status
      → update_warehouse_status client (marked e status l).warehouse l.world ≡ (ok tt, w')
      → (r : Result (Unit {0})) × (reconcile client (controller ∷ controllers) key w ≡ (r, w'))
        × Answers e r
  unfolding reconcile reconcile_warehouse reconcile_found sync_all answer_to
  reconcile-sync_error controller controllers key warehouse status l e w w' found synced has_status
        updated =
      (
        if is_handled e then ok tt else err e,
        rw (found, synced, after_sync-err e status l w' has_status updated)
            (elim (Bool-cases (is_handled e)) [ inl h ↦ rw h refl | inr h ↦ rw h refl ]),
        answers e,
      )
