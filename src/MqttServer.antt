-- ===== src/MqttServer.antt =====
-- source/server/io_wally/mqtt_server.cpp: how the server takes connections and closes them. Its
-- handlers run on one thread, as the network pool has one io_service. What the resolver and the
-- acceptor of the asio library do when the server binds is an argument, as they may throw.
pub mod Running
use wally_io.Prelude.{ℕ, List, [], Bool, true, false}
use wally_io.Connection.{Connection, ErrorCode, no_error}
use wally_io.ConnectionManager.{ConnectionManager, Requests, create, start, stop_all}

pub record MqttServer : Type 0 where
  pub acceptor_open : Bool
  pub accepting : Bool  -- an asynchronous accept is outstanding
  pub connections_closed : Bool
  pub connection_manager : ConnectionManager

abbrev pub make_mqtt_server : MqttServer
make_mqtt_server = record {
  acceptor_open = false;
  accepting = false;
  connections_closed = false;
  connection_manager = record { objects = []; connections = [] };
}

unfoldable pub do_accept : MqttServer → MqttServer
do_accept server = record server { accepting = true }

-- `run`, where the acceptor has been opened and bound.
unfoldable pub run : MqttServer → MqttServer
unfolding do_accept
run server = do_accept (record server { acceptor_open = true })

-- The handler of `async_accept`, of a connection whose object gets that pointer.
unfoldable pub on_accepted : ErrorCode → ℕ → MqttServer → MqttServer × Requests
unfolding do_accept start
on_accepted ec id server = elim server.acceptor_open [
  | false ↦ (record server { accepting = false }, [])
  | true ↦ elim ec [
    | no_error ↦
        let (manager, requests) = start (create id) server.connection_manager in
        (do_accept (record server { connection_manager = manager }), requests)
    | _ ↦ (do_accept server, [])
  ]
]

-- `do_close_connections`, by a termination signal or by `close_connections`.
unfoldable pub do_close_connections : MqttServer → MqttServer × Requests
unfolding stop_all
do_close_connections server =
    let (manager, requests) = stop_all server.connection_manager in
    (record server { connection_manager = manager; connections_closed = true }, requests)

-- The conditions that `wait_until_bound` and `wait_until_connections_closed` wait for.
abbrev pub is_bound : MqttServer → Bool
is_bound server = server.acceptor_open

abbrev pub are_connections_closed : MqttServer → Bool
are_connections_closed server = server.connections_closed
