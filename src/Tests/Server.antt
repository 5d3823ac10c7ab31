-- ===== src/Tests/Server.antt =====
-- A pool of two io_services, and a server with a connection.
use wally_io.Prelude.{
  if◌then◌else◌, ltb, ◌==◌, ◌+◌, ◌%◌, ◌≤◌, ◌≡◌, refl, List, [], ◌∷◌, true, false, All, length, ok,
  arith,
}
use wally_io.Connection.{no_error}
use wally_io.ConnectionManager.{create, start}
use wally_io.ServicePool.{
  IoServicePool, make_io_service_pool, returned, Turn, go_on, run_threads, io_service,
}
use wally_io.ServicePool.RoundRobin.{InTurn, started, run_threads-InTurn, io_service_lem}
use wally_io.MqttServer.{
  MqttServer, run, do_accept, on_accepted, do_close_connections, is_bound, are_connections_closed,
}
use wally_io.MqttServer.Running.{
  Reachable, running, later, accepted, IsRunning, Reachable-IsRunning, do_close_connections_lem,
}

abbrev pool : IoServicePool
pool = record { pool_size = 2; next_io_service = 0; running = true }

new_pool : make_io_service_pool 2 ≡ ok pool
unfolding make_io_service_pool
new_pool = refl

-- The third call takes the counter before the first two have read it again.
abbrev schedule : List Turn
schedule =
    Turn.begin
    ∷ Turn.begin
    ∷ Turn.begin
    ∷ go_on 2
    ∷ go_on 0
    ∷ go_on 2
    ∷ go_on 2
    ∷ go_on 2
    ∷ go_on 1
    ∷ []

run_threads-InTurn_example :
    let calls = (run_threads schedule (started pool)).calls in InTurn 2 0 calls × (length calls ≡ 3)
run_threads-InTurn_example = run_threads-InTurn 2 schedule pool new_pool (omega arith)

io_service_example :
    let last : IoServicePool = record pool { next_io_service = 2 } in
    let (pool', call) = io_service last in
    (call ≡ returned (2 % 2))
    × (pool'.next_io_service ≡ (if ltb 2 2 then 2 + 1 else if 2 == 1 then 0 else 1))
    × (pool'.next_io_service ≤ 2)
    × (pool'.next_io_service % 2 ≡ (2 + 1) % 2)
io_service_example =
    io_service_lem (record pool { next_io_service = 2 }) (omega arith) (omega arith) (omega arith)

abbrev one_connection : MqttServer
one_connection = record {
  acceptor_open = true;
  accepting = true;
  connections_closed = false;
  connection_manager = record { objects = create 7 ∷ []; connections = 7 ∷ [] };
}

one_connection-Reachable : Reachable one_connection
unfolding run do_accept on_accepted start
one_connection-Reachable = later running (accepted no_error 7 refl tt)

Reachable-IsRunning_example : IsRunning one_connection
Reachable-IsRunning_example = Reachable-IsRunning one_connection-Reachable

do_close_connections_example :
    let closed = (do_close_connections one_connection).0 in
    let next = (on_accepted no_error 8 closed).0 in
    All (λ c. c.is_open ≡ false) closed.connection_manager.objects
    × (closed.connection_manager.connections ≡ [])
    × (are_connections_closed closed ≡ true)
    × (is_bound closed ≡ true)
    × (next.connection_manager.objects ≡ create 8 ∷ closed.connection_manager.objects)
    × (next.connection_manager.connections ≡ 8 ∷ [])
    × (are_connections_closed next ≡ true)
do_close_connections_example = do_close_connections_lem 8 one_connection-Reachable (refl, tt)
