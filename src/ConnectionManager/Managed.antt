-- ===== src/ConnectionManager/Managed.antt =====
-- The managed connections are the open ones (mqtt_connection_manager.cpp).
use wally_io.Prelude.{
  ℕ, ◌≡◌, refl, sym, ◌∙◌, List, [], ◌∷◌, map, Bool, true, false, All, All-map, All-weaken,
  All-filter, any, Bool-cases, ◌==◌, inl, inr, if◌then◌else◌, arith,
}
use wally_io.Connection.{Connection, do_stop}
use wally_io.ConnectionManager.{
  ConnectionManager, is_managed, insert, erase, stopped_if, start, stop, stop_all,
}

-- No object has this pointer yet.
abbrev pub IsNew : ℕ → List Connection → Type 0
IsNew id objects = All (λ c. (c.id == id) ≡ false) objects

abbrev pub has_object : ℕ → List Connection → Bool
has_object id objects = any (λ c. c.id == id) objects

-- The managed connections are the open ones.
pub record IsManaged (manager : ConnectionManager) : Type 0 where
  pub open_managed : All (λ c. c.is_open ≡ is_managed c.id manager.connections) manager.objects
  pub managed_there : All (λ id. has_object id manager.objects ≡ true) manager.connections

is_managed-insert :
    (id other : ℕ) (connections : List ℕ)
    → is_managed other (insert id connections)
      ≡ (if id == other then true else is_managed other connections)
is_managed-insert id other connections = elim (Bool-cases (is_managed id connections)) [
  | inl there ↦ elim (Bool-cases (id == other)) [
    | inl same ↦ let e : id ≡ other = ground arith in rw (there, same) (rw e at there)
    | inr different ↦ rw (there, different)
  ]
  | inr absent ↦ rw absent (ground arith)
]

is_managed-erase :
    (id other : ℕ) (connections : List ℕ)
    → is_managed other (erase id connections)
      ≡ (if other == id then false else is_managed other connections)
is_managed-erase id other [] = ground arith
is_managed-erase id other (c ∷ connections) = ground (arith, is_managed-erase id other connections)

has_object-map :
    (f : Connection → Connection) (id : ℕ) (objects : List Connection)
    → ((c : Connection) → (f c).id ≡ c.id)
    → has_object id (map f objects) ≡ has_object id objects
has_object-map f id [] h = refl
has_object-map f id (c ∷ objects) h = rw (h c, has_object-map f id objects h)

stopped_if-id : (b : Bool) (c : Connection) → (stopped_if b c).id ≡ c.id
unfolding do_stop
stopped_if-id true c = refl
stopped_if-id false c = refl

stopped_if-is_open :
    (b : Bool) (c : Connection) → (stopped_if b c).is_open ≡ (if b then false else c.is_open)
unfolding do_stop
stopped_if-is_open true c = refl
stopped_if-is_open false c = refl

-- Only flags of the objects change.
pub there-map :
    (f : Connection → Connection) (objects : List Connection) (connections : List ℕ)
    → ((c : Connection) → (f c).id ≡ c.id)
    → All (λ id. has_object id objects ≡ true) connections
    → All (λ id. has_object id (map f objects) ≡ true) connections
there-map f objects connections h v =
    All-weaken connections (λ id e. has_object-map f id objects h ∙ e) v

pub stop-IsManaged :
    (id : ℕ) (manager : ConnectionManager) → IsManaged manager → IsManaged (stop id manager).0
unfolding stop
stop-IsManaged id manager v = record {
  open_managed =
      All-map _ (λ c. stopped_if (c.id == id) c) manager.objects
        (λ c e.
          let same : (stopped_if (c.id == id) c).is_open
              ≡ is_managed (stopped_if (c.id == id) c).id (erase id manager.connections) =
            rw
              (
                stopped_if-id (c.id == id) c,
                stopped_if-is_open (c.id == id) c,
                is_managed-erase id c.id manager.connections,
              )
              (rw e refl) in
          same)
        v.open_managed;
  managed_there =
      there-map (λ c. stopped_if (c.id == id) c) manager.objects (erase id manager.connections)
        (λ c. stopped_if-id (c.id == id) c) (All-filter _ _ manager.connections v.managed_there);
}

pub stop_all-IsManaged :
    (manager : ConnectionManager)
    → IsManaged manager
    → IsManaged (stop_all manager).0 × All (λ c. c.is_open ≡ false) (stop_all manager).0.objects
unfolding stop_all
stop_all-IsManaged manager v =
    let closed =
      All-map _ (λ c. stopped_if (is_managed c.id manager.connections) c) manager.objects
        (λ (c : Connection) (e : c.is_open ≡ is_managed c.id manager.connections).
          let shut : (stopped_if (is_managed c.id manager.connections) c).is_open ≡ false =
            rw (stopped_if-is_open (is_managed c.id manager.connections) c, e) (ground arith) in
          shut)
        v.open_managed in
    (record { open_managed = closed; managed_there = tt }, closed)

insert-open_managed :
    (id : ℕ) (connections : List ℕ) (objects : List Connection)
    → IsNew id objects
    → All (λ c. c.is_open ≡ is_managed c.id connections) objects
    → All (λ c. c.is_open ≡ is_managed c.id (insert id connections)) objects
insert-open_managed id connections [] new v = tt
insert-open_managed id connections (c ∷ objects) (other, new) (e, v) =
    let unequal : (id == c.id) ≡ false = ground arith in
    (
      e ∙ sym (is_managed-insert id c.id connections ∙ rw unequal refl),
      insert-open_managed id connections objects new v,
    )

insert-there :
    (connection : Connection) (connections : List ℕ) (objects : List Connection)
    → All (λ id. has_object id objects ≡ true) connections
    → All (λ id. has_object id (connection ∷ objects) ≡ true) (insert connection.id connections)
insert-there connection connections objects v =
    let same : (connection.id == connection.id) ≡ true = ground arith in
    let here : has_object connection.id (connection ∷ objects) ≡ true = rw same refl in
    let there : All (λ id. has_object id (connection ∷ objects) ≡ true) connections =
      All-weaken connections (λ id e. ground (arith, e)) v in
    elim (Bool-cases (is_managed connection.id connections)) [
      | inl known ↦ rw known there
      | inr unknown ↦ rw unknown (here, there)
    ]

pub start-IsManaged :
    (connection : Connection) (manager : ConnectionManager)
    → connection.is_open ≡ true
    → IsNew connection.id manager.objects
    → IsManaged manager
    → IsManaged (start connection manager).0
unfolding start
start-IsManaged connection manager opened new v =
    let same : (connection.id == connection.id) ≡ true = ground arith in
    record {
      open_managed = (
        opened
            ∙ sym
                (is_managed-insert connection.id connection.id manager.connections ∙ rw same refl),
        insert-open_managed connection.id manager.connections manager.objects new v.open_managed,
      );
      managed_there = insert-there connection manager.connections manager.objects v.managed_there;
    }
