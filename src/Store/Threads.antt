-- ===== src/Store/Threads.antt =====
-- Threads that share the TTL store. Get takes its two locks one after the other, so other threads
-- may act between its look at a stale item and its removal.
use vibe_alfa_gen.Prelude.{
  ℕ, ◌+◌, ◌≤◌, ◌<◌, ◌≡◌, refl, ap, true, List, [], ◌∷◌, String, Option, none, some, if◌then◌else◌,
  ◌==◌, string_eq, nat_eq, lookup, delete, lookup-insert, lookup-delete, arith, Distinct,
  insert-Distinct, delete-Distinct, Option-cases, Bool-cases, inl, inr, eq_of_beq,
}
use mathlib.Core.Path.{subst}
use vibe_alfa_gen.Store.{
  same_item, Time, Record, Item, TtlStore, expired, record_expiry, read_item, get_read, stale,
  evict, put, create_if_absent, remove, sweep_items, cleanup,
}
use vibe_alfa_gen.Store.Live.{create_if_absent-live, live, live-evict, expired_mono}

-- A stale item that a thread has seen, under its id, and not yet removed.
abbrev pub Pending : Type 0
Pending = Option (String × Item)

pub record System : Type 0 where
  pub store : TtlStore
  pub now : Time
  pub pending : ℕ → Pending

abbrev set_pending : (ℕ → Pending) → ℕ → Pending → ℕ → Pending
set_pending f t p k = if k == t then p else f k

-- One locked section of one thread, or the passing of time.
pub data Step (a b : System) : Type 0 where
  saw_stale :
      (t : ℕ) (id : String) (it : Item)
      → get_read a.store a.now id ≡ stale it
      → b ≡ record a { pending = set_pending a.pending t (some (id, it)) }
      → Step a b
  evicted :
      (t : ℕ) (id : String) (it : Item)
      → a.pending t ≡ some (id, it)
      → b ≡ record a { store = evict a.store id it; pending = set_pending a.pending t none }
      → Step a b
  wrote :
      (id : String) (rec : Record) → b ≡ record a { store = put a.store a.now id rec } → Step a b
  created :
      (id : String) (rec : Record)
      → b ≡ record a { store = (create_if_absent a.store a.now id rec).1 }
      → Step a b
  removed : (id : String) → b ≡ record a { store = remove a.store id } → Step a b
  cleaned : b ≡ record a { store = cleanup a.store a.now } → Step a b
  waited : (n : ℕ) → b ≡ record a { now = a.now + n } → Step a b

pub data Reach (a : System) : System → Type 0 where
  here : Reach a a
  next : {b c : System} → Reach a b → Step b c → Reach a c

-- Addresses in use lie below the next one.
abbrev Bounded : ℕ → List (String × Item) → Type 0
Bounded n items = (id : String) (it : Item) → lookup id items ≡ some it → it.address < n

-- A pending item has expired, and no other item under its id has its address.
pub record IsStale (s : TtlStore) (now : Time) (id : String) (it : Item) : Type 0 where
  pub old : it.address < s.fresh
  pub gone : expired now it ≡ true
  pub alone :
      (other : Item) → lookup id s.items ≡ some other → other.address ≡ it.address → other ≡ it

abbrev StaleAt : TtlStore → Time → Pending → Type 0
StaleAt s now none = Unit
StaleAt s now (some (id, it)) = IsStale s now id it

pub record IsSafe (a : System) : Type 0 where
  pub distinct : Distinct a.store.items
  pub bounded : Bounded a.store.fresh a.store.items
  pub stale_ones :
      (t : ℕ) (id : String) (it : Item) → a.pending t ≡ some (id, it) → IsStale a.store a.now id it

-- The items of `m` are items of `l`.
abbrev Shrinks : List (String × Item) → List (String × Item) → Type 0
Shrinks m l = (id : String) (it : Item) → lookup id m ≡ some it → lookup id l ≡ some it

delete-Shrinks : (k : String) (items : List (String × Item)) → Shrinks (delete k items) items
delete-Shrinks k items id it h = ground (arith, lookup-delete k id items)

sweep_items-Shrinks :
    (now : Time) (items : List (String × Item))
    → Distinct items
    → Shrinks (sweep_items now items) items
unfolding sweep_items lookup
sweep_items-Shrinks now [] d id it h = h
sweep_items-Shrinks now ((k, v) ∷ items) d id it h =
    ground (arith, sweep_items-Shrinks now items d.1 id it, eq_of_beq k id)

none_of_Shrinks :
    (k : String) (m l : List (String × Item)) → Shrinks m l → lookup k l ≡ none → lookup k m ≡ none
none_of_Shrinks k m l h n = elim (Option-cases (lookup k m)) [
  | inl e ↦ e
  | inr (it, e) ↦ cc (h k it e)
]

sweep_items-Distinct :
    (now : Time) (items : List (String × Item)) → Distinct items → Distinct (sweep_items now items)
unfolding sweep_items
sweep_items-Distinct now [] d = tt
sweep_items-Distinct now ((k, v) ∷ items) d = elim (Bool-cases (expired now v)) [
  | inl e ↦ rw e (sweep_items-Distinct now items d.1)
  | inr e ↦ rw e (
    none_of_Shrinks k _ items (sweep_items-Shrinks now items d.1) d.0,
    sweep_items-Distinct now items d.1,
  )
]

-- A store that has lost items, and nothing else, leaves the system safe.
shrink-IsSafe :
    (a : System) (items : List (String × Item))
    → IsSafe a
    → Distinct items
    → Shrinks items a.store.items
    → IsSafe (record a { store = record a.store { items = items } })
shrink-IsSafe a items safe d sh = record {
  distinct = d;
  bounded = λ id it h. safe.bounded id it (sh id it h);
  stale_ones = λ t id it h.
      let st = safe.stale_ones t id it h in
      record { old = st.old; gone = st.gone; alone = λ other k. st.alone other (sh id other k) };
}

evict-IsSafe :
    (a : System) (id : String) (it : Item)
    → IsSafe a
    → IsSafe (record a { store = evict a.store id it })
unfolding evict
evict-IsSafe a id it safe = elim (Bool-cases (same_item (lookup id a.store.items) it)) [
  | inl e ↦ rw e (
      shrink-IsSafe a (delete id a.store.items) safe
        (delete-Distinct id a.store.items safe.distinct) (delete-Shrinks id a.store.items))
  | inr e ↦ rw e safe
]

put-IsSafe :
    (a : System) (id : String) (rec : Record)
    → IsSafe a
    → IsSafe (record a { store = put a.store a.now id rec })
unfolding put
put-IsSafe a id rec safe =
    let it : Item = record {
      rec = rec;
      expires = record_expiry a.store a.now rec;
      address = a.store.fresh;
    } in
    record {
      distinct = insert-Distinct id it a.store.items safe.distinct;
      bounded =
          λ j other h. ground (arith, lookup-insert id j it a.store.items, safe.bounded j other);
      stale_ones = λ t j old h.
          let st = safe.stale_ones t j old h in
          record {
            old = omega (arith, st.old);
            gone = st.gone;
            alone = λ other k e.
                ground (arith, lookup-insert id j it a.store.items, st.alone other, st.old);
          };
    }

create_if_absent-IsSafe :
    (a : System) (id : String) (rec : Record)
    → IsSafe a
    → IsSafe (record a { store = (create_if_absent a.store a.now id rec).1 })
create_if_absent-IsSafe a id rec safe =
    rw (create_if_absent-live a.store a.now id rec) (elim (Option-cases (live a.store a.now id)) [
      | inl e ↦ rw e (put-IsSafe a id rec safe)
      | inr (old, e) ↦ rw e safe
    ])

read_item-eq-stale :
    (now : Time) (o : Option Item) (it : Item)
    → read_item now o ≡ stale it
    → (o ≡ some it) × (expired now it ≡ true)
unfolding read_item
read_item-eq-stale now o it h = ground arith

saw_stale-IsStale :
    (s : TtlStore) (now : Time) (id : String) (it : Item)
    → Bounded s.fresh s.items
    → get_read s now id ≡ stale it
    → IsStale s now id it
unfolding get_read
saw_stale-IsStale s now id it bounded h =
    let (at, gone) = read_item-eq-stale now (lookup id s.items) it h in
    record { old = bounded id it at; gone = gone; alone = λ other k e. cc }

set_pending-IsSafe :
    (a : System) (t : ℕ) (p : Pending)
    → IsSafe a
    → ((id : String) (it : Item) → p ≡ some (id, it) → IsStale a.store a.now id it)
    → IsSafe (record a { pending = set_pending a.pending t p })
set_pending-IsSafe a t p safe st = record {
  distinct = safe.distinct;
  bounded = safe.bounded;
  stale_ones = λ k id it h. elim (Bool-cases (k == t)) [
    | inl e ↦ st id it (rw e at h)
    | inr e ↦ safe.stale_ones k id it (rw e at h)
  ];
}

-- Every step keeps the system safe.
pub Step-IsSafe : {a b : System} → Step a b → IsSafe a → IsSafe b
Step-IsSafe {a} (saw_stale t id it h e) safe = rw e (
    set_pending-IsSafe a t (some (id, it)) safe (λ j other p.
      subst (StaleAt a.store a.now) p (saw_stale-IsStale a.store a.now id it safe.bounded h)))
Step-IsSafe {a} (evicted t id it h e) safe = rw e (
    set_pending-IsSafe (record a { store = evict a.store id it }) t none (evict-IsSafe a id it safe)
      (λ j other p. cc))
Step-IsSafe {a} (wrote id rec e) safe = rw e (put-IsSafe a id rec safe)
Step-IsSafe {a} (created id rec e) safe = rw e (create_if_absent-IsSafe a id rec safe)
Step-IsSafe {a} (removed id e) safe = rw e (
    unfold remove in
    shrink-IsSafe a (delete id a.store.items) safe (delete-Distinct id a.store.items safe.distinct)
      (delete-Shrinks id a.store.items))
Step-IsSafe {a} (cleaned e) safe = rw e (
    unfold cleanup in
    shrink-IsSafe a (sweep_items a.now a.store.items) safe
      (sweep_items-Distinct a.now a.store.items safe.distinct)
      (sweep_items-Shrinks a.now a.store.items safe.distinct))
Step-IsSafe {a} (waited n e) safe = rw e (record {
  distinct = safe.distinct;
  bounded = safe.bounded;
  stale_ones = λ t id it h.
      let st = safe.stale_ones t id it h in
      record {
        old = st.old;
        gone = expired_mono a.now (a.now + n) it (omega arith) st.gone;
        alone = st.alone;
      };
})

pub Reach-IsSafe : {a b : System} → Reach a b → IsSafe a → IsSafe b
Reach-IsSafe here safe = safe
Reach-IsSafe (next r st) safe = Step-IsSafe st (Reach-IsSafe r safe)

-- A store with no items and no thread in the middle of a Get.
abbrev pub start : ℕ → Time → System
start ttl now = record {
  store = record { items = []; ttl = ttl; fresh = 0 };
  now = now;
  pending = λ t. none;
}

start-IsSafe : (ttl : ℕ) (now : Time) → IsSafe (start ttl now)
unfolding lookup
start-IsSafe ttl now = record {
  distinct = tt;
  bounded = λ id it h. cc;
  stale_ones = λ t id it h. cc;
}

same_item-alone :
    (o : Option Item) (it : Item)
    → same_item o it ≡ true
    → ((other : Item) → o ≡ some other → other.address ≡ it.address → other ≡ it)
    → o ≡ some it
same_item-alone none it h alone = cc
same_item-alone (some other) it h alone =
    ap some (alone other refl (eq_of_beq other.address it.address h))

-- Whatever the threads did since the look, the removal that ends a Get changes nothing that a client
-- can see, then or later.
pub eviction_invisible :
    (ttl : ℕ) (now : Time) (a : System)
    → Reach (start ttl now) a
    → (t : ℕ) (id : String) (it : Item) → a.pending t ≡ some (id, it)
    → (later : Time) (j : String) → a.now ≤ later
    → live (evict a.store id it) later j ≡ live a.store later j
eviction_invisible ttl now a r t id it p later j h =
    let st = (Reach-IsSafe r (start-IsSafe ttl now)).stale_ones t id it p in
    elim (Bool-cases (same_item (lookup id a.store.items) it)) [
      | inl e ↦
          live-evict a.store a.now later id j it
            (same_item-alone (lookup id a.store.items) it e st.alone) st.gone h
      | inr e ↦ ap (λ s. live s later j) (unfold evict in rw e)
    ]
