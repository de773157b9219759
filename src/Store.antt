-- ===== src/Store.antt =====
-- internal/pii/store/store.go: records, the store interface and the in-memory TTL store.
pub mod Live
pub mod Threads
pub mod Interface
pub mod Codec
pub mod Redis
use vibe_alfa_gen.Prelude.{
  ℕ, suc, ◌+◌, Bool, true, false, not, List, [], ◌∷◌, String, Option, none, some, leb,
  if◌then◌else◌, ◌==◌, string_eq, nat_eq, length, lookup, insert, delete,
}
use vibe_alfa_gen.Domain.{Finding}
use vibe_alfa_gen.Text.{Text}

-- A time in nanoseconds; 0 is the zero time of Go.
abbrev pub Time : Type 0
Time = ℕ

pub record Record : Type 0 where
  pub original : Text
  pub masked : Text
  pub findings : List Finding
  pub transform_map : List (Text × Text)
  pub token_nonce : Text
  pub created_at : Time
  pub expires_at : Time
  pub policy_version : String

-- An item is allocated once; `address` tells two items apart as Go's pointers do.
pub record Item : Type 0 where
  pub rec : Record
  pub expires : Time
  pub address : ℕ

-- `ttl` is 0 where expiry is disabled; `fresh` is the next address.
pub record TtlStore : Type 0 where
  pub items : List (String × Item)
  pub ttl : ℕ
  pub fresh : ℕ

unfoldable pub new_ttl_store : ℕ → TtlStore
new_ttl_store ttl = record { items = []; ttl = ttl; fresh = 0 }

-- A time that is zero never passes.
unfoldable pub passed : Time → Time → Bool
passed now expires = if expires == 0 then false else leb expires now

unfoldable pub expired : Time → Item → Bool
unfolding passed
expired now it = passed now it.expires

unfoldable pub expiry : TtlStore → Time → Time
expiry s now = if s.ttl == 0 then 0 else now + s.ttl

unfoldable pub record_expiry : TtlStore → Time → Record → Time
unfolding expiry
record_expiry s now rec = if not (rec.expires_at == 0) then rec.expires_at else expiry s now

-- What Get does under the read lock: the record, or the stale item that it goes on to remove.
pub data Read : Type 0 where
  absent : Read
  stale : Item → Read
  found : Record → Read

unfoldable pub read_item : Time → Option Item → Read
unfolding expired
read_item now none = absent
read_item now (some it) = if expired now it then stale it else found it.rec

unfoldable pub get_read : TtlStore → Time → String → Read
unfolding read_item
get_read s now id = read_item now (lookup id s.items)

abbrev pub same_item : Option Item → Item → Bool
same_item none it = false
same_item (some other) it = other.address == it.address

-- What Get does under the write lock, which it takes after releasing the read lock: it removes the
-- stale item only if it is still there.
unfoldable pub evict : TtlStore → String → Item → TtlStore
evict s id it =
    if same_item (lookup id s.items) it then record s { items = delete id s.items } else s

-- Get, with nothing in between.
unfoldable pub get : TtlStore → Time → String → Option Record × TtlStore
unfolding get_read evict
get s now id = elim (get_read s now id) [
  | absent ↦ (none, s)
  | stale it ↦ (none, evict s id it)
  | found rec ↦ (some rec, s)
]

unfoldable pub put : TtlStore → Time → String → Record → TtlStore
unfolding record_expiry
put s now id rec =
    let it : Item = record { rec = rec; expires = record_expiry s now rec; address = s.fresh } in
    record s { items = insert id it s.items; fresh = suc s.fresh }

-- CreateIfAbsent: the stored record, whether it is new, and the store after.
unfoldable pub create_if_absent : TtlStore → Time → String → Record → (Record × Bool) × TtlStore
unfolding read_item put
create_if_absent s now id rec = elim (read_item now (lookup id s.items)) [
  | found old ↦ ((old, false), s)
  | _ ↦ ((rec, true), put s now id rec)
]

unfoldable pub remove : TtlStore → String → TtlStore
remove s id = record s { items = delete id s.items }

unfoldable pub len : TtlStore → ℕ
len s = length s.items

unfoldable pub sweep_items : Time → List (String × Item) → List (String × Item)
unfolding expired
sweep_items now [] = []
sweep_items now ((id, it) ∷ items) =
    let rest = sweep_items now items in if expired now it then rest else (id, it) ∷ rest

unfoldable pub cleanup : TtlStore → Time → TtlStore
unfolding sweep_items
cleanup s now = record s { items = sweep_items now s.items }
