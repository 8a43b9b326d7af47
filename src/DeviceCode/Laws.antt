-- ===== src/DeviceCode/Laws.antt =====
-- What one call on the device authorization store does (src/nanoidp/services/device_code.py).
use nanoidp.Prelude.{
  ℕ, ◌≤◌, String, ◌≡◌, refl, ◌↔◌, false, ◌&&◌, some, List, [], ◌∷◌, arith, ◌==◌, if◌then◌else◌,
  length,
}
use nanoidp.Dict.{get, keys_where, remove_all, HasUniqueKeys}
use nanoidp.Dict.Laws.{
  unless, get-put, get-sweep, put-HasUniqueKeys, remove_all-HasUniqueKeys, length-put-le,
  length-remove_all-le,
}
use nanoidp.DeviceCode.{
  DeviceCodeStore, DeviceRequest, is_expired, drop_code, drop_codes, prune_expired, new_grant,
  create, max_pending,
}

-- The grants that the loop of `prune_expired` leaves are those of the dict with the keys removed.
pub codes-drop_codes :
    (ks : List String) (s : DeviceCodeStore) → (drop_codes ks s).codes ≡ remove_all ks s.codes
unfolding drop_codes remove_all
codes-drop_codes [] s = refl
codes-drop_codes (k ∷ ks) s = codes-drop_codes ks (drop_code k s)

pub get-prune_expired :
    (now : ℕ) (k : String) (s : DeviceCodeStore)
    → HasUniqueKeys s.codes
    → get k (prune_expired now s).0.codes ≡ unless (is_expired now) (get k s.codes)
unfolding prune_expired
get-prune_expired now k s u = rw codes-drop_codes (get-sweep (is_expired now) k s.codes u)

length-prune_expired-le :
    (now : ℕ) (s : DeviceCodeStore) → length (prune_expired now s).0.codes ≤ length s.codes
unfolding prune_expired
length-prune_expired-le now s =
    rw codes-drop_codes (length-remove_all-le (keys_where (is_expired now) s.codes) s.codes)

-- `create` never takes the number of stored authorizations past the cap of ten thousand, and refuses
-- exactly when that many are left once the expired ones are dropped.
pub create-cap :
    (now : ℕ) (device_code user_code : String) (r : DeviceRequest) (s : DeviceCodeStore)
    → (length s.codes ≤ max_pending
        → length (create now device_code user_code r s).0.codes ≤ max_pending)
      × (((create now device_code user_code r s).1 ≡ false)
          ↔ (max_pending ≤ length (prune_expired now s).0.codes))
unfolding create
create-cap now device_code user_code r s =
    let shorter = length-prune_expired-le now s in
    let grown =
      length-put-le device_code (new_grant now user_code r) (prune_expired now s).0.codes in
    (λ h. ground (arith, shorter, grown), (λ h. ground arith, λ h. ground arith))

-- After `create` on a store without repeated keys, the drawn device code holds the new pending
-- grant unless the call was refused, and every other entry is there exactly if it has not expired.
pub get-create :
    (now : ℕ) (device_code user_code : String) (r : DeviceRequest) (s : DeviceCodeStore)
    (k : String)
    → HasUniqueKeys s.codes
    → get k (create now device_code user_code r s).0.codes ≡ (
        if (create now device_code user_code r s).1 && device_code == k
        then some (new_grant now user_code r)
        else unless (is_expired now) (get k s.codes))
unfolding create
get-create now device_code user_code r s k u = ground (
  arith,
  get-prune_expired now k s u,
  get-put k device_code (new_grant now user_code r) (prune_expired now s).0.codes,
)

pub create_unique :
    (now : ℕ) (device_code user_code : String) (r : DeviceRequest) (s : DeviceCodeStore)
    → HasUniqueKeys s.codes
    → HasUniqueKeys (create now device_code user_code r s).0.codes
unfolding create prune_expired
create_unique now device_code user_code r s u =
    let pruned : HasUniqueKeys (drop_codes (keys_where (is_expired now) s.codes) s).codes =
      rw codes-drop_codes
        (remove_all-HasUniqueKeys (keys_where (is_expired now) s.codes) s.codes u) in
    ground (
      arith,
      pruned,
      put-HasUniqueKeys device_code (new_grant now user_code r)
          (drop_codes (keys_where (is_expired now) s.codes) s).codes pruned,
    )

pub prune_expired_unique :
    (now : ℕ) (s : DeviceCodeStore)
    → HasUniqueKeys s.codes
    → HasUniqueKeys (prune_expired now s).0.codes
unfolding prune_expired
prune_expired_unique now s u =
    rw codes-drop_codes (remove_all-HasUniqueKeys (keys_where (is_expired now) s.codes) s.codes u)
