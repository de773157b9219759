-- ===== src/Store/Live.antt =====
-- The client's view of the TTL store: the record of an id that has not expired.
use vibe_alfa_gen.Prelude.{
  ◌≤◌, ◌≡◌, refl, true, false, List, [], ◌∷◌, String, Option, none, some, if◌then◌else◌, ◌==◌,
  string_eq, nat_eq, lookup, lookup-insert, lookup-delete, Distinct, arith, Option-cases, inl, inr,
  eq_of_beq,
}
use vibe_alfa_gen.Store.{
  Time, Record, Item, TtlStore, passed, expired, record_expiry, evict, get, put, create_if_absent,
  sweep_items, cleanup,
}

abbrev pub live_item : Time → Option Item → Option Record
live_item now none = none
live_item now (some it) = if expired now it then none else some it.rec

-- The record that a client sees at `now`.
unfoldable pub live : TtlStore → Time → String → Option Record
live s now id = live_item now (lookup id s.items)

-- What has expired stays expired.
pub expired_mono :
    (now later : Time) (it : Item) → now ≤ later → expired now it ≡ true → expired later it ≡ true
unfolding expired
expired_mono now later it h e = ground arith

-- Get answers with the live record.
pub get-eq-live : (s : TtlStore) (now : Time) (id : String) → (get s now id).0 ≡ live s now id
unfolding get live
get-eq-live s now id = ground arith

-- An eviction of an expired item is invisible, then and later.
pub live-evict :
    (s : TtlStore) (now later : Time) (id j : String) (it : Item)
    → lookup id s.items ≡ some it
    → expired now it ≡ true
    → now ≤ later
    → live (evict s id it) later j ≡ live s later j
unfolding evict live
live-evict s now later id j it h e le =
    ground (arith, h, lookup-delete id j s.items, expired_mono now later it, eq_of_beq id j)

-- Get changes nothing that a client can see, then or later.
pub live-get :
    (s : TtlStore) (now later : Time) (id j : String)
    → now ≤ later
    → live (get s now id).1 later j ≡ live s later j
unfolding get
live-get s now later id j h = elim (Option-cases (lookup id s.items)) [
  | inl e ↦ ground (arith, e)
  | inr (it, e) ↦ ground (arith, e, live-evict s now later id j it)
]

-- A record that Put stores is seen until it expires, and no other id is touched.
pub live-put :
    (s : TtlStore) (now later : Time) (id j : String) (rec : Record)
    → live (put s now id rec) later j ≡ (
        if id == j
        then (if passed later (record_expiry s now rec) then none else some rec)
        else live s later j)
unfolding put live expired
live-put s now later id j rec =
    let it : Item = record { rec = rec; expires = record_expiry s now rec; address = s.fresh } in
    ground (arith, lookup-insert id j it s.items)

-- CreateIfAbsent keeps a live record and answers with it; otherwise it stores its own, as Put does.
pub create_if_absent-live :
    (s : TtlStore) (now : Time) (id : String) (rec : Record)
    → create_if_absent s now id rec ≡ elim (live s now id) [
      | some old ↦ ((old, false), s)
      | none ↦ ((rec, true), put s now id rec)
    ]
unfolding create_if_absent live
create_if_absent-live s now id rec = ground arith

live-sweep_items :
    (now later : Time) (j : String) (items : List (String × Item))
    → now ≤ later
    → Distinct items
    → live_item later (lookup j (sweep_items now items)) ≡ live_item later (lookup j items)
unfolding sweep_items lookup
live-sweep_items now later j [] h d = refl
live-sweep_items now later j ((id, it) ∷ items) h d =
    ground (arith, live-sweep_items now later j items, expired_mono now later it, eq_of_beq id j)

-- Cleanup changes nothing that a client can see, then or later.
pub live-cleanup :
    (s : TtlStore) (now later : Time) (j : String)
    → now ≤ later
    → Distinct s.items
    → live (cleanup s now) later j ≡ live s later j
unfolding cleanup live
live-cleanup s now later j h d = live-sweep_items now later j s.items h d
