-- ===== src/ServicePool/RoundRobin.antt =====
-- In which order the pool hands its io_services out (`io_service()` of
-- concurrency/io_service_pool.hpp).
use native.Mathlib.Nat.{mod-mod, mod-le, mod-lt, add-mod_right, mod-eq_of_lt, mod-add-mod}
use wally_io.Prelude.{
  true, false, ℕ, zero, suc, ◌+◌, ◌%◌, ◌≤◌, ◌<◌, ◌≡◌, refl, ap, sym, ◌∙◌, inl, inr, List, [], ◌∷◌,
  ◌++◌, if◌then◌else◌, Bool-cases, ltb, leb, ◌==◌, length, length-append, ok, arith,
}
use wally_io.ServicePool.{
  size_modulus, IoServicePool, make_io_service_pool, Call, claimed, loading, loaded, returned,
  claim, proceed, Threads, Turn, begin, go_on, go_on_at, turn, run_threads, io_service,
}

-- The io_service that a call returns, or will return.
abbrev pub service_of : ℕ → Call → ℕ
service_of pool_size (claimed next) = next % pool_size
service_of pool_size (loading next) = next % pool_size
service_of pool_size (loaded next seen) = next % pool_size
service_of pool_size (returned service) = service

-- The calls have the io_services `k`, `k + 1`, … in turn.
abbrev pub InTurn : ℕ → ℕ → List Call → Type 0
InTurn pool_size k [] = Unit {0}
InTurn pool_size k (call ∷ calls) =
    (service_of pool_size call ≡ k % pool_size) × InTurn pool_size (suc k) calls

abbrev pub calls_begun : List Turn → ℕ
calls_begun [] = 0
calls_begun (begin ∷ schedule) = suc (calls_begun schedule)
calls_begun (go_on i ∷ schedule) = calls_begun schedule

-- The counter counts the calls, but for multiples of the pool's size.
record Counts (pool_size calls : ℕ) (pool : IoServicePool) : Type 0 where
  size : pool.pool_size ≡ pool_size
  congruent : pool.next_io_service % pool_size ≡ calls % pool_size
  bounded : pool.next_io_service ≤ calls

proceed-Counts :
    (pool_size n : ℕ) (pool : IoServicePool) (call : Call)
    → Counts pool_size n pool
    → Counts pool_size n (proceed pool call).0
unfolding proceed
proceed-Counts pool_size n pool (claimed next) c = ground arith
proceed-Counts pool_size n pool (loading next) c = ground arith
proceed-Counts pool_size n pool (loaded next seen) c =
    ground (arith, mod-mod seen pool_size, mod-le seen pool_size)
proceed-Counts pool_size n pool (returned service) c = c

service_of-proceed :
    (pool : IoServicePool) (call : Call)
    → service_of pool.pool_size (proceed pool call).1 ≡ service_of pool.pool_size call
unfolding proceed
service_of-proceed pool (claimed next) = ground arith
service_of-proceed pool (loading next) = ground arith
service_of-proceed pool (loaded next seen) = ground arith
service_of-proceed pool (returned service) = refl

go_on_at-InTurn :
    (pool_size n i k : ℕ) (pool : IoServicePool) (calls : List Call)
    → Counts pool_size n pool
    → InTurn pool_size k calls
    → let (pool', calls') = go_on_at i pool calls in
      Counts pool_size n pool' × InTurn pool_size k calls' × (length calls' ≡ length calls)
unfolding go_on_at
go_on_at-InTurn pool_size n i k pool [] c h = (c, tt, refl)
go_on_at-InTurn pool_size n zero k pool (call ∷ calls) c (h, hs) = (
  proceed-Counts pool_size n pool call c,
  (rw (← c.size) (service_of-proceed pool call ∙ rw c.size h), hs),
  refl,
)
go_on_at-InTurn pool_size n (suc i) k pool (call ∷ calls) c (h, hs) =
    let (c', hs', len) = go_on_at-InTurn pool_size n i (suc k) pool calls c hs in
    (c', (h, hs'), ap suc len)

InTurn-append :
    (pool_size k : ℕ) (calls : List Call) (call : Call)
    → InTurn pool_size k calls
    → service_of pool_size call ≡ (k + length calls) % pool_size
    → InTurn pool_size k (calls ++ call ∷ [])
InTurn-append pool_size k [] call h e = (e ∙ ap (λ (n : ℕ). n % pool_size) (omega arith), tt)
InTurn-append pool_size k (c ∷ calls) call (h, hs) e = (
  h,
  InTurn-append pool_size (suc k) calls call hs (e ∙ ap (λ (n : ℕ). n % pool_size) (omega arith)),
)

add-one_mod : (a b m : ℕ) → a % m ≡ b % m → (a + 1) % m ≡ (b + 1) % m
add-one_mod a b m e = sym (mod-add-mod a m 1) ∙ ap (λ (n : ℕ). (n + 1) % m) e ∙ mod-add-mod b m 1

record AreInTurn (pool_size : ℕ) (t : Threads) : Type 0 where
  counts : Counts pool_size (length t.calls) t.pool
  in_turn : InTurn pool_size 0 t.calls

begin-AreInTurn :
    (pool_size : ℕ) (t : Threads)
    → length t.calls + 1 < size_modulus
    → AreInTurn pool_size t
    → AreInTurn pool_size (turn begin t)
unfolding turn claim
begin-AreInTurn pool_size t small v =
    let c = v.counts in
    let len : length (t.calls ++ claimed t.pool.next_io_service ∷ []) ≡ length t.calls + 1 =
      omega (arith, length-append t.calls (claimed t.pool.next_io_service ∷ [])) in
    let next : (t.pool.next_io_service + 1) % size_modulus ≡ t.pool.next_io_service + 1 =
      mod-eq_of_lt (omega (arith, c.bounded)) in
    record {
      counts = record {
        size = c.size;
        congruent =
            rw (next, len)
              (add-one_mod t.pool.next_io_service (length t.calls) pool_size c.congruent);
        bounded = omega (arith, next, len, c.bounded);
      };
      in_turn =
          InTurn-append pool_size 0 t.calls _ v.in_turn
            (c.congruent ∙ ap (λ (n : ℕ). n % pool_size) (omega arith));
    }

length-begin : (t : Threads) → length (turn begin t).calls ≡ length t.calls + 1
unfolding turn claim
length-begin t = omega (arith, length-append t.calls (claimed t.pool.next_io_service ∷ []))

go_on-AreInTurn :
    (pool_size i : ℕ) (t : Threads)
    → AreInTurn pool_size t
    → AreInTurn pool_size (turn (go_on i) t) × (length (turn (go_on i) t).calls ≡ length t.calls)
unfolding turn
go_on-AreInTurn pool_size i t v =
    let (c, hs, len) =
      go_on_at-InTurn pool_size (length t.calls) i 0 t.pool t.calls v.counts v.in_turn in
    (
      record {
        counts = record {
          size = c.size;
          congruent = rw len c.congruent;
          bounded = omega (arith, len, c.bounded);
        };
        in_turn = hs;
      },
      len,
    )

run_threads-AreInTurn :
    (pool_size : ℕ) (schedule : List Turn) (t : Threads)
    → length t.calls + calls_begun schedule < size_modulus
    → AreInTurn pool_size t
    → AreInTurn pool_size (run_threads schedule t)
      × (length (run_threads schedule t).calls ≡ length t.calls + calls_begun schedule)
unfolding run_threads
run_threads-AreInTurn pool_size [] t small v = (v, omega arith)
run_threads-AreInTurn pool_size (begin ∷ schedule) t small v =
    let len : length (turn begin t).calls ≡ length t.calls + 1 = length-begin t in
    let (v', len') =
      run_threads-AreInTurn pool_size schedule (turn begin t) (omega (arith, len))
        (begin-AreInTurn pool_size t (omega arith) v) in
    (v', omega (arith, len, len'))
run_threads-AreInTurn pool_size (go_on i ∷ schedule) t small v =
    let (w, len) = go_on-AreInTurn pool_size i t v in
    let (v', len') =
      run_threads-AreInTurn pool_size schedule (turn (go_on i) t) (omega (arith, len)) w in
    (v', omega (arith, len, len'))

abbrev pub started : IoServicePool → Threads
started pool = record { pool = pool; calls = [] }

-- Threads call `io_service()` on a new pool, fewer than 2^64 times in all, and their accesses of the
-- counter interleave in any order. Then the calls, in the order in which they took the counter, have
-- the io_services 0, 1, and so on in turn, modulo the size of the pool, whatever the compare-exchanges
-- of other threads did to the counter in between.
pub run_threads-InTurn :
    (pool_size : ℕ) (schedule : List Turn) (pool : IoServicePool)
    → make_io_service_pool pool_size ≡ ok pool
    → calls_begun schedule < size_modulus
    → let calls = (run_threads schedule (started pool)).calls in
      InTurn pool_size 0 calls × (length calls ≡ calls_begun schedule)
unfolding make_io_service_pool
run_threads-InTurn pool_size schedule pool e small =
    let new : pool ≡ record { pool_size = pool_size; next_io_service = 0; running = true } =
      ground (arith, e) in
    let v : AreInTurn pool_size (started pool) = rw new (record {
      counts = record { size = refl; congruent = refl; bounded = omega arith };
      in_turn = tt;
    }) in
    let (v', len) = run_threads-AreInTurn pool_size schedule (started pool) (omega arith) v in
    (v'.in_turn, omega (arith, len))

-- A counter that is at the size is counted on and taken modulo the size.
restart_lem : (n : ℕ) → 0 < n → (n + 1) % n ≡ (if n == 1 then 0 else 1)
restart_lem n positive = elim (Bool-cases (n == 1)) [
  | inl single ↦ let is : n ≡ 1 = ground arith in rw is refl
  | inr more ↦
      let one : (n + 1) % n ≡ 1 % n = ap (λ (x : ℕ). x % n) (omega arith) ∙ add-mod_right 1 n in
      let left : 1 % n ≡ 1 = mod-eq_of_lt (ground arith) in rw more (one ∙ left)
]

-- A call that no other thread interferes with, on a pool of one io_service at least and of 2^64 - 2
-- at most, whose counter is not above its size, as in a new pool: it returns after five accesses at
-- most, with the io_service whose turn it is. A counter below the size counts on by one; one that is
-- at the size starts again, at 1, or at 0 in a pool of one io_service. So it is again not above the
-- size, and the io_service of the next call is the next one in turn.
pub io_service_lem :
    (pool : IoServicePool)
    → 0 < pool.pool_size
    → pool.pool_size + 1 < size_modulus
    → pool.next_io_service ≤ pool.pool_size
    → let (pool', call) = io_service pool in
      (call ≡ returned (pool.next_io_service % pool.pool_size))
      × (pool'.next_io_service ≡ (
          if ltb pool.next_io_service pool.pool_size
          then pool.next_io_service + 1
          else if pool.pool_size == 1
          then 0
          else 1))
      × (pool'.next_io_service ≤ pool.pool_size)
      × (pool'.next_io_service % pool.pool_size ≡ (pool.next_io_service + 1) % pool.pool_size)
unfolding io_service claim proceed
io_service_lem pool positive small below =
    let c = pool.next_io_service in
    let n = pool.pool_size in
    let next : (c + 1) % size_modulus ≡ c + 1 = mod-eq_of_lt (omega arith) in
    let fits : (c + 1) % n < n = mod-lt (c + 1) positive in
    elim (Bool-cases (leb n c)) [
      | inr turn ↦
          let more : ltb c n ≡ true = ground arith in
          rw (io_service, turn, next, more) (refl, refl, ground arith, refl)
      | inl last ↦
          let unseen : ltb (c + 1) n ≡ false = ground arith in
          let unchanged : (c + 1 == c + 1) ≡ true = ground arith in
          let seen : ltb ((c + 1) % n) n ≡ true = ground arith in
          let same : c ≡ n = ground arith in
          let full : ltb c n ≡ false = ground arith in
          let restarted : (c + 1) % n ≡ (if ltb c n then c + 1 else if n == 1 then 0 else 1) =
            rw full (ap (λ (x : ℕ). (x + 1) % n) same ∙ restart_lem n positive) in
          rw (io_service, last, next, unseen, unchanged, seen)
            (refl, restarted, omega arith, mod-mod (c + 1) n)
    ]
