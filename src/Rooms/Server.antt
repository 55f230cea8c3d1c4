-- ===== src/Rooms/Server.antt =====
-- `ConnectionManager` and `ws_data`: connections are numbered as they come, `rooms` is the defaultdict
-- `active_connections`, and a session holds the local variables of one call of `ws_data`. Redis is not part
-- of the repository: its messages are events.
use zhiwei_backend.Prelude.{
  Done, ℕ, suc, Bool, ◌==◌, List, [], ◌∷◌, ◌++◌, map, Option, none, some, String, if◌then◌else◌,
  Result, ok, err,
}
use zhiwei_backend.Prelude.Rows.{select}
use zhiwei_backend.Users.Table.{User, UserTable}
use zhiwei_backend.Access.Guards.{UserProject, Claims, user_of_token, check_project_access}

pub record Session : Type 0 where
  pub user : User
  pub subscribed_project : Option ℕ

pub record Server : Type 0 where
  pub rooms : ℕ → List ℕ
  pub sessions : ℕ → Option Session
  pub next_connection : ℕ

-- A text from a client: a subscription, another object, or one that makes the endpoint raise.
pub data Message : Type 0 where
  subscribe : ℕ → Message
  other_message malformed : Message

pub data Event : Type 0 where
  handshake : String → Event
  receive : ℕ → Message → Event
  leave : ℕ → Event
  publish : ℕ → String → (ℕ → Bool) → Event

-- What goes out to a connection: the text of a broadcast is of the project of its channel.
pub data Outgoing : Type 0 where
  close : ℕ → Outgoing
  accept subscribed : ℕ → Outgoing
  forbidden : ℕ → ℕ → Outgoing
  push : ℕ → ℕ → String → Outgoing

abbrev pub set : {A : Type 0} → (ℕ → A) → ℕ → A → ℕ → A
set f k a j = if j == k then a else f j

abbrev pub remove : ℕ → List ℕ → List ℕ
remove ws [] = []
remove ws (v ∷ vs) = if v == ws then vs else v ∷ remove ws vs

unfoldable pub connect : ℕ → ℕ → Server → Server
connect ws project s = record s { rooms = set s.rooms project (s.rooms project ++ ws ∷ []) }

unfoldable pub disconnect : ℕ → ℕ → Server → Server
disconnect ws project s = record s { rooms = set s.rooms project (remove ws (s.rooms project)) }

abbrev pub disconnect_all : List ℕ → ℕ → Server → Server
disconnect_all [] project s = s
disconnect_all (ws ∷ wss) project s = disconnect_all wss project (disconnect ws project s)

-- One message of the listener: `fails` are the connections whose `send_text` raises.
unfoldable pub broadcast : ℕ → String → (ℕ → Bool) → Server → Server × List Outgoing
broadcast project text fails s = (
  disconnect_all (select fails (s.rooms project)) project s,
  map (λ (ws : ℕ). Outgoing.push ws project text) (s.rooms project),
)

abbrev pub admitted : Result User → Server → Server × List Outgoing
admitted (err e) s = (s, Outgoing.close 4401 ∷ [])
admitted (ok u) s = (
  record s {
    sessions =
        set s.sessions s.next_connection (some (record { user = u; subscribed_project = none }));
    next_connection = suc s.next_connection;
  },
  Outgoing.accept s.next_connection ∷ [],
)

abbrev pub subscribed_to : ℕ → ℕ → Session → Server → Server
subscribed_to ws project session s =
    let s' = connect ws project s in
    record s' {
      sessions = set s'.sessions ws (some (record session { subscribed_project = some project }));
    }

-- only the first subscription counts
abbrev pub first_subscription : ℕ → ℕ → Session → Option ℕ → Server → Server × List Outgoing
first_subscription ws project session none s =
    (subscribed_to ws project session s, Outgoing.subscribed project ∷ [])
first_subscription ws project session (some old) s = (s, [])

abbrev pub checked : ℕ → ℕ → Session → Result Done → Server → Server × List Outgoing
checked ws project session (err e) s = (s, Outgoing.forbidden ws project ∷ [])
checked ws project session (ok done) s =
    first_subscription ws project session session.subscribed_project s

abbrev pub left_room : ℕ → Option ℕ → Server → Server
left_room ws none s = s
left_room ws (some project) s = disconnect ws project s

-- `finally`, and the end of the call
abbrev pub ended : ℕ → Session → Server → Server
ended ws session s =
    let s' = left_room ws session.subscribed_project s in
    record s' { sessions = set s'.sessions ws none }

module _ (decode : String → Option Claims) (users : UserTable) (links : List UserProject) where
  abbrev pub answered : ℕ → Session → Message → Server → Server × List Outgoing
  answered ws session (subscribe project) s =
      checked ws project session (check_project_access session.user project links) s
  answered ws session other_message s = (s, [])
  answered ws session malformed s = (ended ws session s, [])

  abbrev pub received : ℕ → Option Session → Message → Server → Server × List Outgoing
  received ws none message s = (s, [])
  received ws (some session) message s = answered ws session message s

  abbrev pub gone : ℕ → Option Session → Server → Server
  gone ws none s = s
  gone ws (some session) s = ended ws session s

  unfoldable pub handle : Event → Server → Server × List Outgoing
  handle (handshake token) s = admitted (user_of_token decode token users) s
  handle (receive ws message) s = received ws (s.sessions ws) message s
  handle (leave ws) s = (gone ws (s.sessions ws) s, [])
  handle (publish project text fails) s = broadcast project text fails s
