-- ===== src/Service/Startup.antt =====
-- service/service.go, waitAndGetLocalDeviceID and waitForConfigInSync. The retries of the library are a
-- list: what the call returns in each attempt, until the library gives up.
use correlation.Base.{
  is_empty, Text, codes, List, [], ◌∷◌, Bool, if◌then◌else◌, Result, ok, err, ◌≡◌, ◌≢◌, refl, All,
  Any, ◌⊎◌, inl, inr,
}

-- an attempt of waitAndGetLocalDeviceID, on what GetMyID returns
unfoldable pub id_attempt : Result Text → Result Text
id_attempt (err e) = err e
id_attempt (ok id) = if is_empty id then err (codes "id empty") else ok id

-- waitAndGetLocalDeviceID; `id` stays empty while the attempts fail
unfoldable pub wait_and_get_local_device_id : List (Result Text) → Text
unfolding id_attempt
wait_and_get_local_device_id [] = []
wait_and_get_local_device_id (r ∷ rs) =
    let rest = wait_and_get_local_device_id rs in elim (id_attempt r) [ ok id ↦ id | err e ↦ rest ]

-- an attempt of waitForConfigInSync, on what IsConfigInSync returns
unfoldable pub in_sync_attempt : Result Bool → Result (Unit {0})
in_sync_attempt (err e) = err e
in_sync_attempt (ok in_sync) = if in_sync then ok tt else err (codes "not in sync")

-- The attempt failed, or its ID was empty.
abbrev pub HasFailed : Result Text → Type 0
HasFailed r = (e : Text) × (id_attempt r ≡ err e)

-- The ID with which Run goes on is either one that syncthing has returned, and not empty, or it is
-- empty, and every attempt has failed.
pub wait_and_get_local_device_id_lem :
    (rs : List (Result Text))
    → ((wait_and_get_local_device_id rs ≢ [])
        × Any (λ r. r ≡ ok (wait_and_get_local_device_id rs)) rs)
      ⊎ ((wait_and_get_local_device_id rs ≡ []) × All HasFailed rs)
unfolding wait_and_get_local_device_id
wait_and_get_local_device_id_lem [] = inr (refl, tt)
wait_and_get_local_device_id_lem (err e ∷ rs) = elim (wait_and_get_local_device_id_lem rs) [
  | inl (full, found) ↦ inl (full, inr found)
  | inr (none_left, failed) ↦ inr (none_left, ((e, refl), failed))
]
wait_and_get_local_device_id_lem (ok [] ∷ rs) = elim (wait_and_get_local_device_id_lem rs) [
  | inl (full, found) ↦ inl (full, inr found)
  | inr (none_left, failed) ↦ inr (none_left, ((codes "id empty", refl), failed))
]
wait_and_get_local_device_id_lem (ok (c ∷ id) ∷ rs) = inl ((λ h. cc), inl refl)
