-- ===== src/Rooms/Tests.antt =====
-- Two clients, of which one may read project 2.
use zhiwei_backend.Prelude.{
  ℕ, ◌≡◌, refl, Bool, true, false, List, [], ◌∷◌, Option, some, String, str_eq, ok, if◌then◌else◌,
}
use zhiwei_backend.Users.Table.{User, UserTable}
use zhiwei_backend.Access.Guards.{UserProject, Claims, check_project_access}
use zhiwei_backend.Rooms.Server.{
  Server, Message, Event, Outgoing, connect, disconnect, broadcast, handle,
}
use zhiwei_backend.Rooms.Broadcast.{empty, AlwaysAllowed, handle-empty}

abbrev user : ℕ → User
user i = record {
  id = i;
  username = "u";
  email = "u@a";
  hashed_password = "x";
  role = "user";
  is_active = true;
}

abbrev users : UserTable
users = record { rows = user 5 ∷ user 6 ∷ []; next_id = 7 }

abbrev links : List UserProject
links = record { user_id = 5; project_id = 2; permission = "read" } ∷ []

abbrev claims : ℕ → Claims
claims i = record { sub = ok i; type = some "access" }

abbrev decode : String → Option Claims
decode token = if str_eq token "five" then some (claims 5) else some (claims 6)

abbrev all_well : ℕ → Bool
all_well ws = false

abbrev events : List Event
events =
    Event.handshake "five"
    ∷ Event.handshake "six"
    ∷ Event.receive 0 (Message.subscribe 2)
    ∷ Event.receive 1 (Message.subscribe 2)
    ∷ Event.receive 0 (Message.subscribe 3)
    ∷ Event.publish 2 "reading" all_well
    ∷ Event.receive 0 Message.malformed
    ∷ Event.publish 2 "reading" all_well
    ∷ []

abbrev outgoing : List Event → Server → List (List Outgoing)
outgoing [] s = []
outgoing (e ∷ es) s = let (s', out) = handle decode users links e s in out ∷ outgoing es s'

outgoing-events :
    outgoing events empty
    ≡ (Outgoing.accept 0 ∷ [])
      ∷ (Outgoing.accept 1 ∷ [])
      ∷ (Outgoing.subscribed 2 ∷ [])
      ∷ (Outgoing.forbidden 1 2 ∷ [])
      ∷ (Outgoing.forbidden 0 3 ∷ [])
      ∷ (Outgoing.push 0 2 "reading" ∷ [])
      ∷ []
      ∷ []
      ∷ []
unfolding handle connect disconnect broadcast check_project_access
outgoing-events = refl

handle-empty_example : AlwaysAllowed decode users links events empty
handle-empty_example = handle-empty decode users links events
