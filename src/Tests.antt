-- ===== src/Tests.antt =====
-- The development on concrete input: a store-attached scope, and the invariants applied to it.
mod Effects
mod Batches
mod Stores
mod Subscriptions
mod Requests
mod Warmed
use scopecache.Prelude.{
  ℕ, ◌+◌, ◌-◌, ◌<◌, ◌≤◌, ◌≡◌, refl, true, [], ◌∷◌, none, some, length, arith, ℕ_discrete, dec_lt,
  dec_le,
}
use scopecache.Word.{word, half}
use scopecache.Map.{lookup, insert, erase}
use scopecache.Map.Index.{find}
use scopecache.Map.Keeps.{record_key, forget_key, forget_keys}
use scopecache.Search.{search, search_loop}
use scopecache.Item.{
  Bytes, Bytes-discrete, Uuid, Item, empty_item, Json, approx_item_size, is_zero,
  render_or_precompute, precompute_render_bytes,
}
use scopecache.Ledger.{Ledger, EventsMode, reserve_bytes, bump_last_write_ts}
use scopecache.Ledger.Steps.{reserve_bytes-granted_iff}
use scopecache.Buffer.{ScopeBuffer, State, new_scope_buffer, id_tag, seq_tag, uuid_tag, put_item}
use scopecache.Buffer.Locked.{adopted_uuid, insert_new_item, item_cap_exceeded}
use scopecache.Buffer.Write.{append_item, upsert_by_id, update_by_id}
use scopecache.Buffer.Counter.{counter_add, counter_add_slow}
use scopecache.Buffer.Delete.{delete_by_id, delete_up_to_uuid, shrink_if_sparse}
use scopecache.Buffer.Invariant.{IsCoherent, new_scope_buffer-IsCoherent}
use scopecache.Buffer.Write.Keeps.{append_item-Kept}
use scopecache.Buffer.Kept.{Kept}
use scopecache.Buffer.History.{Request, Reaches, Sound, Reaches-Sound, serve}
use scopecache.Buffer.Write.Updates.{upsert_by_id-Kept, update_by_id-Kept}
use scopecache.Buffer.Delete.Keeps.{delete_by_id-Kept, delete_up_to_uuid-Kept}
use scopecache.Buffer.Counter.Keeps.{counter_add-Kept, counter_add-eq-slow}
use scopecache.Buffer.Remove.{shrink_if_sparse-IsCoherent}

-- A library that reads no literal.
abbrev pub json : Json
json = record {
  unmarshal_string = λ bs. none;
  unmarshal_number = λ bs. some bs;
  valid = λ bs. true;
}

abbrev pub grow : ℕ → ℕ → ℕ
grow cap needed = cap + needed

abbrev pub uuid : ℕ → Uuid
uuid n = n ∷ 0 ∷ 0 ∷ 0 ∷ 0 ∷ 0 ∷ 0 ∷ 0 ∷ 0 ∷ 0 ∷ 0 ∷ 0 ∷ 0 ∷ 0 ∷ 0 ∷ 0 ∷ []

abbrev pub ledger : Ledger
ledger = record {
  total_bytes = 1024;
  total_items = 0;
  scope_count = 1;
  last_write_ts = 0;
  events_drops_total = 0;
  default_max_items = 10;
  max_store_bytes = 4096;
  max_item_bytes = 512;
  events_max_item_bytes = 512;
  inbox_max_items = 10;
  inbox_max_item_bytes = 64;
  events_mode = EventsMode.events_off;
}

abbrev pub apple : Item
apple = record empty_item { scope = b's' ∷ []; id = b'a' ∷ []; payload = b'4' ∷ b'2' ∷ [] }

abbrev pub pear : Item
pear = record empty_item { scope = b's' ∷ []; id = b'p' ∷ []; payload = b'7' ∷ [] }

-- A payload that replaces another.
abbrev pub nine : Bytes
nine = b'9' ∷ []

abbrev attached : ScopeBuffer
attached = record (new_scope_buffer 10 1) { has_store = true; max_item_bytes = 512 }

abbrev start : State
start = record { ledger = ledger; buf = attached }

attached-IsCoherent : IsCoherent attached
attached-IsCoherent =
    let c = new_scope_buffer-IsCoherent 10 1 in
    record {
      ids = c.ids;
      seqs = c.seqs;
      uuids = c.uuids;
      ascending = c.ascending;
      seq_range = c.seq_range;
      allocated = c.allocated;
      bytes_sum = c.bytes_sum;
      id_bytes_sum = c.id_bytes_sum;
      last_seq_word = c.last_seq_word;
    }

abbrev pub one : State
one = (append_item json grow apple 5 (uuid 1) start).1

abbrev pub two : State
two = (append_item json grow pear 6 (uuid 2) one).1

pub program : Unit {0}
unfolding append_item insert_new_item new_scope_buffer lookup insert erase find record_key
    forget_key forget_keys search search_loop reserve_bytes bump_last_write_ts approx_item_size
    is_zero dec_lt dec_le ℕ_discrete Bytes-discrete id_tag seq_tag uuid_tag put_item
    item_cap_exceeded render_or_precompute precompute_render_bytes
program = tt

start_left : start.buf.last_seq + 1 < word
unfolding program
start_left = omega arith

start_free : lookup Bytes-discrete (adopted_uuid apple (uuid 1) start.buf) start.buf.by_uuid ≡ none
unfolding program
start_free = refl

pub one_left : one.buf.last_seq + 1 < word
unfolding program
one_left = omega arith

one_free : lookup Bytes-discrete (adopted_uuid pear (uuid 2) one.buf) one.buf.by_uuid ≡ none
unfolding program
one_free = refl

pub one-Kept : Kept start (append_item json grow apple 5 (uuid 1) start)
one-Kept =
    append_item-Kept json grow apple 5 (uuid 1) start attached-IsCoherent start_left start_free

pub two-IsCoherent : IsCoherent two.buf
two-IsCoherent =
    (append_item-Kept json grow pear 6 (uuid 2) one one-Kept.coherent one_left one_free).coherent

pub two_short : length two.buf.items < half
unfolding program
two_short = omega arith

two_run : Reaches json grow start two
unfolding serve program
two_run =
    Reaches.step (Request.append apple 5 (uuid 1)) (start_left, start_free)
      (Reaches.step (Request.append pear 6 (uuid 2)) (one_left, one_free) Reaches.stay)

Reaches-Sound_example : Sound json grow start two
Reaches-Sound_example = Reaches-Sound json grow start two attached-IsCoherent two_run

reserve_bytes-granted_iff_example :
    ((reserve_bytes 4000 ledger).granted ≡ true → 1024 + 4000 ≤ 4096)
    × (1024 + 4000 ≤ 4096 → (reserve_bytes 4000 ledger).granted ≡ true)
    × ((reserve_bytes 4000 ledger).ledger.total_bytes ≤ 4096)
reserve_bytes-granted_iff_example =
    reserve_bytes-granted_iff 4000 ledger (omega arith) (omega arith) (omega arith) (omega arith)

two_left : two.buf.last_seq + 1 < word
unfolding program
two_left = omega arith

two_free : lookup Bytes-discrete (adopted_uuid apple (uuid 3) two.buf) two.buf.by_uuid ≡ none
unfolding program
two_free = refl

uuid_free : lookup Bytes-discrete (uuid 3) two.buf.by_uuid ≡ none
unfolding program
uuid_free = refl

counter_add-eq-slow_example :
    counter_add json grow apple.scope apple.id 1 9 (uuid 3) two
    ≡ counter_add_slow json grow apple.scope apple.id 1 9 (uuid 3) two
counter_add-eq-slow_example = counter_add-eq-slow json grow apple.scope apple.id 1 9 (uuid 3) two

-- The same scope with its items in a slice of more capacity.
wide-IsCoherent : IsCoherent (record two.buf { items_cap = 5000 })
wide-IsCoherent =
    let c = two-IsCoherent in
    record {
      ids = c.ids;
      seqs = c.seqs;
      uuids = c.uuids;
      ascending = c.ascending;
      seq_range = c.seq_range;
      allocated = c.allocated;
      bytes_sum = c.bytes_sum;
      id_bytes_sum = c.id_bytes_sum;
      last_seq_word = c.last_seq_word;
    }

shrink_if_sparse-IsCoherent_example :
    IsCoherent (shrink_if_sparse (record two.buf { items_cap = 5000 }))
shrink_if_sparse-IsCoherent_example =
    shrink_if_sparse-IsCoherent (record two.buf { items_cap = 5000 }) wide-IsCoherent
