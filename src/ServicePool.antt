-- ===== src/ServicePool.antt =====
-- source/server/io_wally/concurrency/io_service_pool.hpp: the pool that hands its io_services out in
-- turn, to any number of threads. A call of `io_service()` goes on from one access of the shared
-- counter to the next, and calls interleave at these accesses in any order. An io_service is its
-- index in the pool.
pub mod RoundRobin
use wally_io.Prelude.{
  ℕ, zero, suc, ◌+◌, ◌%◌, ◌^◌, List, [], ◌∷◌, ◌++◌, Bool, true, false, not, ltb, leb, ◌==◌,
  if◌then◌else◌, Result, ok, ◌>>=◌, ◌>>◌, assert,
}

-- `size_t` has 64 bits.
abbrev pub size_modulus : ℕ
size_modulus = 2 ^ 64

pub record IoServicePool : Type 0 where
  pub pool_size : ℕ
  pub next_io_service : ℕ
  pub running : Bool

unfoldable pub make_io_service_pool : ℕ → Result IoServicePool
make_io_service_pool pool_size =
    assert (ltb 0 pool_size)
    >> ok (record { pool_size = pool_size; next_io_service = 0; running = true })

-- Where a call of `io_service()` stands, with its local variables.
pub data Call : Type 0 where
  claimed : (next : ℕ) → Call  -- behind `next_io_service_++`
  loading : (next : ℕ) → Call  -- at the head of the loop's body
  loaded : (next seen : ℕ) → Call  -- before the compare-exchange
  returned : (service : ℕ) → Call

-- `next_io_service_++`, which wraps around.
unfoldable pub claim : IoServicePool → IoServicePool × Call
claim pool = (
  record pool { next_io_service = (pool.next_io_service + 1) % size_modulus },
  claimed pool.next_io_service,
)

-- The next access of a call. The compare-exchange stores `seen % pool_size_` only where the counter
-- still is `seen`, and the loop goes round again where it did.
unfoldable pub proceed : IoServicePool → Call → IoServicePool × Call
proceed pool (claimed next) =
    if leb pool.pool_size next
    then (pool, loading next)
    else (pool, returned (next % pool.pool_size))
proceed pool (loading next) =
    if ltb pool.next_io_service pool.pool_size
    then (pool, returned (next % pool.pool_size))
    else (pool, loaded next pool.next_io_service)
proceed pool (loaded next seen) =
    if pool.next_io_service == seen
    then (record pool { next_io_service = seen % pool.pool_size }, loading next)
    else (pool, returned (next % pool.pool_size))
proceed pool (returned service) = (pool, returned service)

-- The pool, and the calls so far, by the order in which they took the counter.
pub record Threads : Type 0 where
  pub pool : IoServicePool
  pub calls : List Call

-- What a thread does next: it begins a call, or goes on with the call of that place in the list.
pub data Turn : Type 0 where
  begin : Turn
  go_on : ℕ → Turn

unfoldable pub go_on_at : ℕ → IoServicePool → List Call → IoServicePool × List Call
unfolding proceed
go_on_at i pool [] = (pool, [])
go_on_at zero pool (call ∷ calls) = let (pool', call') = proceed pool call in (pool', call' ∷ calls)
go_on_at (suc i) pool (call ∷ calls) =
    let (pool', calls') = go_on_at i pool calls in (pool', call ∷ calls')

unfoldable pub turn : Turn → Threads → Threads
unfolding claim go_on_at
turn begin t =
    let (pool', call) = claim t.pool in record { pool = pool'; calls = t.calls ++ call ∷ [] }
turn (go_on i) t =
    let (pool', calls') = go_on_at i t.pool t.calls in record { pool = pool'; calls = calls' }

-- The threads take their turns in the order of the schedule.
unfoldable pub run_threads : List Turn → Threads → Threads
unfolding turn
run_threads [] t = t
run_threads (x ∷ schedule) t = run_threads schedule (turn x t)

-- A call without any other thread. Five accesses are enough.
unfoldable pub io_service : IoServicePool → IoServicePool × Call
unfolding claim proceed
io_service pool =
    let (pool1, call1) = claim pool in
    let (pool2, call2) = proceed pool1 call1 in
    let (pool3, call3) = proceed pool2 call2 in
    let (pool4, call4) = proceed pool3 call3 in proceed pool4 call4

-- `stop`, when its threads are joined, and the condition that `wait_until_stopped` waits for.
unfoldable pub stop : IoServicePool → IoServicePool
stop pool = record pool { running = false }

unfoldable pub is_stopped : IoServicePool → Bool
is_stopped pool = not pool.running
