-- ===== src/Tests/Stores.antt =====
-- The TTL store with one record, and with a thread in the middle of a Get.
use vibe_alfa_gen.Prelude.{
  ℕ, ◌+◌, ◌≤◌, ◌≡◌, refl, true, false, [], ◌∷◌, String, Option, some, none, arith, if◌then◌else◌,
  ◌==◌, string_eq, nat_eq, Distinct,
}
use vibe_alfa_gen.Text.{codes}
use vibe_alfa_gen.Store.{
  Record, Item, TtlStore, new_ttl_store, put, evict, cleanup, passed, record_expiry, get_read,
  stale,
}
use vibe_alfa_gen.Store.Live.{live, live-put, live-cleanup}
use vibe_alfa_gen.Store.Threads.{
  System, Reach, here, next, saw_stale, wrote, waited, start, eviction_invisible,
}

abbrev card_record : Record
card_record = record {
  original = codes "4111";
  masked = codes "****";
  findings = [];
  transform_map = [];
  token_nonce = [];
  created_at = 1;
  expires_at = 5;
  policy_version = "v1";
}

abbrev id_b : String
id_b = "b"

abbrev one_item : TtlStore
one_item = put (new_ttl_store 10) 1 "a" card_record

live-put_example : live (put one_item 2 "b" card_record) 3 "b" ≡ (
    if id_b == id_b
    then (if passed 3 (record_expiry one_item 2 card_record) then none else some card_record)
    else live one_item 3 "b")
live-put_example = live-put one_item 2 3 "b" "b" card_record

one_item-Distinct : Distinct one_item.items
unfolding put vibe_alfa_gen.Prelude.insert new_ttl_store vibe_alfa_gen.Prelude.lookup
one_item-Distinct = (refl, tt)

live-cleanup_example : live (cleanup one_item 6) 7 "a" ≡ live one_item 7 "a"
live-cleanup_example = live-cleanup one_item 6 7 "a" (omega arith) one_item-Distinct

abbrev put_one : System
put_one = record (start 10 1) { store = put (start 10 1).store 1 "a" card_record }

abbrev waited_five : System
waited_five = record put_one { now = put_one.now + 5 }

abbrev old_item : Item
old_item = record { rec = card_record; expires = 5; address = 0 }

abbrev stale_system : System
stale_system = record waited_five { pending = λ k. if k == 0 then some ("a", old_item) else none }

stale_there : get_read waited_five.store waited_five.now "a" ≡ stale old_item
unfolding get_read vibe_alfa_gen.Prelude.lookup put vibe_alfa_gen.Prelude.insert
stale_there = refl

to_stale_system : Reach (start 10 1) stale_system
to_stale_system =
    next (next (next here (wrote "a" card_record refl)) (waited 5 refl))
      (saw_stale 0 "a" old_item stale_there refl)

eviction_invisible_example :
    live (evict stale_system.store "a" old_item) 7 "a" ≡ live stale_system.store 7 "a"
eviction_invisible_example =
    eviction_invisible 10 1 stale_system to_stale_system 0 "a" old_item refl 7 "a" (omega arith)
