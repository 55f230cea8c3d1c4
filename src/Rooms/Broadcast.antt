-- ===== src/Rooms/Broadcast.antt =====
-- Who gets the texts of a project.
use zhiwei_backend.Prelude.{
  Done, ℕ, ◌≤◌, refl, inl, inr, List, [], ◌∷◌, map, Option, none, String, Option-cases, arith,
  Result, ok, err,
}
use zhiwei_backend.Users.Table.{User, UserTable}
use zhiwei_backend.Access.Guards.{UserProject, Claims, user_of_token, check_project_access}
use zhiwei_backend.Rooms.Server.{
  Session, Server, Message, Event, Outgoing, admitted, checked, answered, broadcast, handle,
}
use zhiwei_backend.Rooms.Membership.{times, MayHear, IsIn, IsGuarded}
use zhiwei_backend.Rooms.Events.{handle-IsGuarded}

-- A server that no client has reached.
abbrev pub empty : Server
empty = record { rooms = λ project. []; sessions = λ ws. none; next_connection = 0 }

module _ (decode : String → Option Claims) (users : UserTable) (links : List UserProject) where
  -- Each text of a project goes to a connection that may hear it.
  pub AllAllowed : Server → List Outgoing → Type 0
  AllAllowed s [] = Unit
  AllAllowed s (Outgoing.push ws project text ∷ out) =
      MayHear links project (s.sessions ws) × AllAllowed s out
  AllAllowed s (Outgoing.close code ∷ out) = AllAllowed s out
  AllAllowed s (Outgoing.accept ws ∷ out) = AllAllowed s out
  AllAllowed s (Outgoing.subscribed project ∷ out) = AllAllowed s out
  AllAllowed s (Outgoing.forbidden ws project ∷ out) = AllAllowed s out

  -- So it is at each of a sequence of events.
  pub AlwaysAllowed : List Event → Server → Type 0
  AlwaysAllowed [] s = Unit
  AlwaysAllowed (e ∷ events) s =
      AllAllowed s (handle decode users links e s).1
      × AlwaysAllowed events (handle decode users links e s).0

  push-AllAllowed :
      (project : ℕ) (text : String) (s : Server) (room : List ℕ)
      → ((ws : ℕ) → 1 ≤ times ws room → MayHear links project (s.sessions ws))
      → AllAllowed s (map (λ (ws : ℕ). Outgoing.push ws project text) room)
  unfolding AllAllowed
  push-AllAllowed project text s [] h = tt
  push-AllAllowed project text s (v ∷ room) h =
      (h v (ground arith), push-AllAllowed project text s room (λ ws le. h ws (ground arith)))

  member-MayHear :
      (ws project : ℕ) (s : Server)
      → IsGuarded links s
      → 1 ≤ times ws (s.rooms project)
      → MayHear links project (s.sessions ws)
  unfolding IsIn
  member-MayHear ws project s h le = elim (h.members ws project) [
    | inl z ↦ absurd (omega (arith, le, z))
    | inr (e, may) ↦ may
  ]

  admitted-AllAllowed : (r : Result User) (s t : Server) → AllAllowed t (admitted r s).1
  unfolding AllAllowed
  admitted-AllAllowed (err e) s t = tt
  admitted-AllAllowed (ok u) s t = tt

  checked-AllAllowed :
      (ws project : ℕ) (session : Session) (r : Result Done) (s t : Server)
      → AllAllowed t (checked ws project session r s).1
  unfolding AllAllowed
  checked-AllAllowed ws project session (err e) s t = tt
  checked-AllAllowed ws project session (ok done) s t =
      elim (Option-cases session.subscribed_project) [ inl e ↦ rw e tt | inr (old, e) ↦ rw e tt ]

  answered-AllAllowed :
      (ws : ℕ) (session : Session) (message : Message) (s t : Server)
      → AllAllowed t (answered decode users links ws session message s).1
  unfolding AllAllowed
  answered-AllAllowed ws session (Message.subscribe project) s t =
      checked-AllAllowed ws project session (check_project_access session.user project links) s t
  answered-AllAllowed ws session Message.other_message s t = tt
  answered-AllAllowed ws session Message.malformed s t = tt

  handle-AllAllowed :
      (e : Event) (s : Server) → IsGuarded links s → AllAllowed s (handle decode users links e s).1
  unfolding handle broadcast AllAllowed
  handle-AllAllowed (Event.handshake token) s h =
      admitted-AllAllowed (user_of_token decode token users) s s
  handle-AllAllowed (Event.receive ws message) s h = elim (Option-cases (s.sessions ws)) [
    | inl e ↦ rw e tt
    | inr (session, e) ↦ rw e (answered-AllAllowed ws session message s s)
  ]
  handle-AllAllowed (Event.leave ws) s h = tt
  handle-AllAllowed (Event.publish project text fails) s h =
      push-AllAllowed project text s (s.rooms project) (λ ws le. member-MayHear ws project s h le)

  handle-AlwaysAllowed :
      (events : List Event) (s : Server) → IsGuarded links s → AlwaysAllowed events s
  unfolding AlwaysAllowed
  handle-AlwaysAllowed [] s h = tt
  handle-AlwaysAllowed (e ∷ events) s h = (
    handle-AllAllowed e s h,
    handle-AlwaysAllowed events (handle decode users links e s).0
        (handle-IsGuarded links decode users e s h),
  )

  empty-IsGuarded : IsGuarded links empty
  unfolding IsIn
  empty-IsGuarded = record { members = λ ws p. inl refl; fresh = λ ws le. refl }

  -- While the accounts and the members of projects do not change: whatever clients connect, send and
  -- leave, and whatever is published, in whatever order and however sending fails, a text of a project
  -- goes only to connections that subscribed to that project and whose user may read it.
  pub handle-empty : (events : List Event) → AlwaysAllowed events empty
  handle-empty events = handle-AlwaysAllowed events empty empty-IsGuarded
