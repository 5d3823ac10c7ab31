-- ===== src/MqttServer/Running.antt =====
-- A server that runs, and what happens to it (mqtt_server.cpp).
use wally_io.Prelude.{◌≡◌, refl, [], ◌∷◌, true, false, map, All, All-map, ℕ}
use wally_io.Connection.{Connection, ErrorCode, no_error, operation_aborted, other_error}
use wally_io.ConnectionManager.{create, start, stop, stop_all}
use wally_io.ConnectionManager.Managed.{
  IsNew, IsManaged, there-map, stop-IsManaged, stop_all-IsManaged, start-IsManaged,
}
use wally_io.MqttServer.{
  MqttServer, make_mqtt_server, do_accept, run, on_accepted, do_close_connections, is_bound,
  are_connections_closed,
}

-- What happens to the server: a connection is accepted or that fails, a handler of a connection has
-- run, a connection that asked for it is stopped (`mqtt_connection::stop`), or all are closed. A new
-- object has a pointer of its own, and no handler but `do_stop` closes a socket.
pub data Step (server : MqttServer) : MqttServer → Type 0 where
  accepted :
      (ec : ErrorCode) (id : ℕ)
      → server.accepting ≡ true
      → IsNew id server.connection_manager.objects
      → Step server (on_accepted ec id server).0
  handled :
      (handler : Connection → Connection)
      → ((c : Connection) → ((handler c).id ≡ c.id) × ((handler c).is_open ≡ c.is_open))
      → Step server (record server {
        connection_manager = record server.connection_manager {
          objects = map handler server.connection_manager.objects;
        };
      })
  stop_requested :
      (id : ℕ)
      → Step server (record server { connection_manager = (stop id server.connection_manager).0 })
  closed : Step server (do_close_connections server).0

-- The states that a server comes to when it runs.
pub data Reachable : MqttServer → Type 0 where
  running : Reachable (run make_mqtt_server)
  later : {server server' : MqttServer} → Reachable server → Step server server' → Reachable server'

-- A server that runs: the managed connections are the open ones, and it is bound and accepts.
pub record IsRunning (server : MqttServer) : Type 0 where
  pub manager : IsManaged server.connection_manager
  pub bound : server.acceptor_open ≡ true
  pub accepts : server.accepting ≡ true

on_accepted-IsRunning :
    (ec : ErrorCode) (id : ℕ) (server : MqttServer)
    → IsNew id server.connection_manager.objects
    → IsRunning server
    → IsRunning (on_accepted ec id server).0
unfolding on_accepted do_accept
on_accepted-IsRunning no_error id server new v =
    rw (on_accepted, v.bound)
      (record {
        manager = start-IsManaged (create id) server.connection_manager refl new v.manager;
        bound = v.bound;
        accepts = refl;
      })
on_accepted-IsRunning operation_aborted id server new v =
    rw (on_accepted, v.bound) (record { manager = v.manager; bound = v.bound; accepts = refl })
on_accepted-IsRunning other_error id server new v =
    rw (on_accepted, v.bound) (record { manager = v.manager; bound = v.bound; accepts = refl })

Step-IsRunning :
    {server server' : MqttServer} → Step server server' → IsRunning server → IsRunning server'
unfolding do_close_connections
Step-IsRunning {server} (accepted ec id accepting new) v = on_accepted-IsRunning ec id server new v
Step-IsRunning {server} (handled handler same) v =
    let objects = server.connection_manager.objects in
    record {
      manager = record {
        open_managed =
            All-map _ handler objects (λ c e. rw ((same c).0, (same c).1) e) v.manager.open_managed;
        managed_there = there-map handler objects _ (λ c. (same c).0) v.manager.managed_there;
      };
      bound = v.bound;
      accepts = v.accepts;
    }
Step-IsRunning {server} (stop_requested id) v = record {
  manager = stop-IsManaged id server.connection_manager v.manager;
  bound = v.bound;
  accepts = v.accepts;
}
Step-IsRunning {server} closed v = record {
  manager = (stop_all-IsManaged server.connection_manager v.manager).0;
  bound = v.bound;
  accepts = v.accepts;
}

-- In every state that a running server comes to, by connections that it accepts or fails to accept,
-- by handlers of connections, by connections that are stopped and by calls of `close_connections`, in
-- any order: a connection is managed if and only if its socket is open, every managed pointer is that
-- of a connection, and the server is bound and accepts further connections.
pub Reachable-IsRunning : {server : MqttServer} → Reachable server → IsRunning server
unfolding run do_accept
Reachable-IsRunning running = record {
  manager = record { open_managed = tt; managed_there = tt };
  bound = refl;
  accepts = refl;
}
Reachable-IsRunning (later h step) = Step-IsRunning step (Reachable-IsRunning h)

-- The connections are closed while the server runs. Every connection's socket is closed, none is managed any more, and
-- who waits until the connections are closed goes on. But the server stays bound:
-- the next connection is accepted, its object is open and managed, and the connections
-- still pass for closed.
pub do_close_connections_lem :
    {server : MqttServer} (id : ℕ)
    → Reachable server
    → IsNew id server.connection_manager.objects
    → let closed = (do_close_connections server).0 in
      let next = (on_accepted no_error id closed).0 in
      All (λ c. c.is_open ≡ false) closed.connection_manager.objects
      × (closed.connection_manager.connections ≡ [])
      × (are_connections_closed closed ≡ true)
      × (is_bound closed ≡ true)
      × (next.connection_manager.objects ≡ create id ∷ closed.connection_manager.objects)
      × (next.connection_manager.connections ≡ id ∷ [])
      × (are_connections_closed next ≡ true)
unfolding do_close_connections on_accepted do_accept stop_all start
do_close_connections_lem {server} id h new =
    let v = Reachable-IsRunning h in
    rw (on_accepted, v.bound)
      (
        (stop_all-IsManaged server.connection_manager v.manager).1,
        refl,
        refl,
        refl,
        refl,
        refl,
        refl,
      )
