-- ===== src/ConnectionManager.antt =====
-- source/server/io_wally/mqtt_connection_manager.cpp: the connections of the server that may have to
-- be stopped. A connection object lives on where a handler holds it, also when it is not managed any
-- more, so the model has them all; a pointer is the `id` of the object.
pub mod Managed
use wally_io.Prelude.{
  ℕ, List, [], ◌∷◌, ◌++◌, map, Bool, true, false, any, filter, not, ◌==◌, if◌then◌else◌, none,
}
use wally_io.Connection.{Action, Connection, start_connection, do_stop}

pub record ConnectionManager : Type 0 where
  pub objects : List Connection
  pub connections : List ℕ

-- `mqtt_connection::create`, of the socket of a connection that is accepted.
abbrev pub create : ℕ → Connection
create id = record { id = id; client_id = none; is_open = true; keep_alive = none }

-- What the objects are asked to do, each with its pointer.
abbrev pub Requests : Type 0
Requests = List (ℕ × Action)

abbrev pub is_managed : ℕ → List ℕ → Bool
is_managed id connections = any (λ c. c == id) connections

-- `std::set::insert`
abbrev pub insert : ℕ → List ℕ → List ℕ
insert id connections = if is_managed id connections then connections else id ∷ connections

-- `std::set::erase`
abbrev pub erase : ℕ → List ℕ → List ℕ
erase id connections = filter (λ c. not (c == id)) connections

-- `do_stop` of one object, and of each that is managed.
abbrev pub stopped_if : Bool → Connection → Connection
stopped_if chosen connection = if chosen then (do_stop connection).0 else connection

-- `start`, of a new object.
unfoldable pub start : Connection → ConnectionManager → ConnectionManager × Requests
start connection manager = (
  record {
    objects = connection ∷ manager.objects;
    connections = insert connection.id manager.connections;
  },
  map (λ a. (connection.id, a)) (start_connection connection),
)

-- What `do_stop` asks of the objects that are chosen. The source goes through them in the order of
-- the pointers, and here it is that of the objects.
abbrev pub stop_requests : (Connection → Bool) → List Connection → Requests
stop_requests chosen [] = []
stop_requests chosen (c ∷ objects) =
    (if chosen c then map (λ a. (c.id, a)) (do_stop c).1 else []) ++ stop_requests chosen objects

unfoldable pub stop : ℕ → ConnectionManager → ConnectionManager × Requests
unfolding do_stop
stop id manager = (
  record {
    objects = map (λ c. stopped_if (c.id == id) c) manager.objects;
    connections = erase id manager.connections;
  },
  stop_requests (λ c. c.id == id) manager.objects,
)

unfoldable pub stop_all : ConnectionManager → ConnectionManager × Requests
unfolding do_stop
stop_all manager = (
  record {
    objects = map (λ c. stopped_if (is_managed c.id manager.connections) c) manager.objects;
    connections = [];
  },
  stop_requests (λ c. is_managed c.id manager.connections) manager.objects,
)
