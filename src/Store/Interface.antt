-- ===== src/Store/Interface.antt =====
-- store.Store, the interface that the engine takes, and the TTL store as one that keeps its contract.
use vibe_alfa_gen.Prelude.{
  ◌≤◌, ◌<◌, ◌≡◌, refl, ◌∙◌, ap, Bool, true, false, String, Option, none, some, if◌then◌else◌, ◌==◌,
  string_eq, nat_eq, arith, Option-cases, inl, inr,
}
use vibe_alfa_gen.Domain.{Result, ok}
use vibe_alfa_gen.Store.{Record, Time, TtlStore, passed, record_expiry, get, put, create_if_absent}
use vibe_alfa_gen.Store.Live.{live, get-eq-live, live-get, live-put, create_if_absent-live}

-- store.Store over a state `S`: each call returns its result and the state after.
pub record StoreOps (S : Type 0) : Type 0 where
  pub get : S → Time → String → Result (Option Record) × S
  pub create_if_absent : S → Time → String → Record → Result (Record × Bool) × S

-- The contract of a store that does not fail: it is a map of unexpired records, Get leaves it as it
-- is, and CreateIfAbsent writes only where there is none. Times of calls do not go back.
pub record IsStore {S : Type 0} (ops : StoreOps S) : Type 0 where
  pub view : S → Time → String → Option Record
  pub get-view : (s : S) (now : Time) (id : String) → (ops.get s now id).0 ≡ ok (view s now id)
  pub view-get :
      (s : S) (now later : Time) (id j : String)
      → now ≤ later
      → view (ops.get s now id).1 later j ≡ view s later j
  pub create-view :
      (s : S) (now : Time) (id : String) (rec : Record)
      → (ops.create_if_absent s now id rec).0
        ≡ ok (elim (view s now id) [ some old ↦ (old, false) | none ↦ (rec, true) ])
  pub view-create_taken :
      (s : S) (now later : Time) (id j : String) (rec old : Record)
      → view s now id ≡ some old
      → now ≤ later
      → view (ops.create_if_absent s now id rec).1 later j ≡ view s later j
  pub view-create_free :
      (s : S) (now later : Time) (id j : String) (rec : Record)
      → view s now id ≡ none
      → now ≤ later
      → 0 < rec.expires_at
      → view (ops.create_if_absent s now id rec).1 later j ≡ (
          if id == j
          then (if passed later rec.expires_at then none else some rec)
          else view s later j)

abbrev pub ttl_ops : StoreOps TtlStore
ttl_ops = record {
  get = λ s now id. let (found, s') = get s now id in (ok found, s');
  create_if_absent =
      λ s now id rec. let (saved, s') = create_if_absent s now id rec in (ok saved, s');
}

create_taken :
    (s : TtlStore) (now : Time) (id : String) (rec old : Record)
    → live s now id ≡ some old
    → create_if_absent s now id rec ≡ ((old, false), s)
create_taken s now id rec old h = rw (create_if_absent-live s now id rec) (rw h)

create_free :
    (s : TtlStore) (now : Time) (id : String) (rec : Record)
    → live s now id ≡ none
    → create_if_absent s now id rec ≡ ((rec, true), put s now id rec)
create_free s now id rec h = rw (create_if_absent-live s now id rec) (rw h)

record_expiry_set :
    (s : TtlStore) (now : Time) (rec : Record)
    → 0 < rec.expires_at
    → record_expiry s now rec ≡ rec.expires_at
unfolding record_expiry
record_expiry_set s now rec h = ground arith

-- The TTL store keeps the contract of store.Store.
pub ttl_ops-IsStore : IsStore ttl_ops
ttl_ops-IsStore = record {
  view = live;
  get-view = λ s now id. ap ok (get-eq-live s now id);
  view-get = live-get;
  create-view = λ s now id rec. elim (Option-cases (live s now id)) [
    | inl e ↦ rw (create_free s now id rec e, e) refl
    | inr (old, e) ↦ rw (create_taken s now id rec old e, e) refl
  ];
  view-create_taken = λ s now later id j rec old e h. rw (create_taken s now id rec old e) refl;
  view-create_free = λ s now later id j rec e h pos.
      rw (create_free s now id rec e)
        (live-put s now later id j rec ∙ rw (record_expiry_set s now rec pos) refl);
}
