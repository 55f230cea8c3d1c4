-- ===== src/Users/Requests.antt =====
-- Every request of the user service keeps the accounts in order, and an active admin among them.
use zhiwei_backend.Prelude.{ℕ, Done, Result, ◌≤◌, String}
use zhiwei_backend.Users.Table.{User, UserTable, UserCreate, UserAdminUpdate}
use zhiwei_backend.Users.Service.{
  Bcrypt, admin_update_user, admin_delete_user, create_user, admin_reset_password,
}
use zhiwei_backend.Users.Invariant.{IsSound, active_admins}
use zhiwei_backend.Users.Calls.{
  admin_update_user-Kept, admin_delete_user-Kept, admin_reset_password-Kept, create_user-Kept,
}

-- A call of the service.
pub data Request : Type 0 where
  create : String → UserCreate → Request
  update : User → ℕ → UserAdminUpdate → Request
  delete : (ℕ → Result Done) → User → ℕ → Request
  reset_password : String → User → ℕ → String → Request

module _ (bcrypt : Bcrypt) where
  -- The table that a call leaves, whether it returns or raises.
  unfoldable pub handle : Request → UserTable → UserTable
  handle (create salt payload) t = (create_user bcrypt salt payload t).1
  handle (update operator i payload) t = (admin_update_user operator i payload t).1
  handle (delete references operator i) t = (admin_delete_user references operator i t).1
  handle (reset_password salt operator i new_password) t =
      (admin_reset_password bcrypt salt operator i new_password t).1

  -- The tables that calls of the service lead to.
  pub data Reachable (t : UserTable) : UserTable → Type 0 where
    here : Reachable t t
    after : (r : Request) (u : UserTable) → Reachable t u → Reachable t (handle r u)

  handle_kept :
      (r : Request) (t : UserTable)
      → IsSound t
      → IsSound (handle r t) × (1 ≤ active_admins t → 1 ≤ active_admins (handle r t))
  unfolding handle
  handle_kept (create salt payload) t s =
      let k = create_user-Kept bcrypt salt payload t s in (k.sound, k.admins)
  handle_kept (update operator i payload) t s =
      let k = admin_update_user-Kept operator i payload t s in (k.sound, k.admins)
  handle_kept (delete references operator i) t s =
      let k = admin_delete_user-Kept references operator i t s in (k.sound, k.admins)
  handle_kept (reset_password salt operator i new_password) t s =
      let k = admin_reset_password-Kept bcrypt salt operator i new_password t s in
      (k.sound, k.admins)

  -- Whatever calls of the service are made, from a sound table with an active admin: keys, names and
  -- addresses stay distinct, and there is an active admin.
  pub Reachable-IsSound :
      (t u : UserTable)
      → IsSound t
      → 1 ≤ active_admins t
      → Reachable t u
      → IsSound u × (1 ≤ active_admins u)
  Reachable-IsSound t _ s h here = (s, h)
  Reachable-IsSound t _ s h (after r u path) =
      let (s', h') = Reachable-IsSound t u s h path in
      let (sound, admins) = handle_kept r u s' in (sound, admins h')
