-- ===== src/Buffer/Counter.antt =====
-- `/counter_add` on one scope (buffer_counter.go).
pub mod Keeps
pub mod Range
use scopecache.Prelude.{
  ℕ, ◌+◌, ◌-◌, ◌%◌, ◌^◌, Bool, true, false, not, ◌==◌, if◌then◌else◌, ◌&&◌, ◌||◌, List, [], Option,
  none, some, length,
}
use scopecache.Word.{word, add64, sub64, slt, sle}
use scopecache.Decimal.{parse_int}
use scopecache.Map.{lookup, insert}
use scopecache.Item.{
  Bytes, Bytes-discrete, Uuid, zero_uuid, CounterCell, Item, Json, approx_item_size, Error, Result,
  ok, err,
}
use scopecache.Buffer.{Ptr, put_item, ScopeBuffer, State}
use scopecache.Buffer.Locked.{
  ptr_at, item_at, item_cap_exceeded, index_by_seq, reserve_if, count_items, store_item,
}

-- 2 ^ 53 - 1, the largest integer that JavaScript keeps exact, and its negative.
abbrev pub max_counter_value : ℕ
max_counter_value = 2 ^ 53 - 1

abbrev pub min_counter_value : ℕ
min_counter_value = 2 ^ 64 - (2 ^ 53 - 1)

unfoldable pub out_of_range : ℕ → Bool
out_of_range v = slt max_counter_value v || slt v min_counter_value

-- `atomicCounterAdd`: the value moves only inside the range, and the time never goes back.
unfoldable pub atomic_counter_add : CounterCell → ℕ → ℕ → Result ℕ × CounterCell
unfolding out_of_range
atomic_counter_add cell by now =
    let next = add64 cell.value by in
    if out_of_range next
    then (err (Error.counter_overflow cell.value by), cell)
    else (ok next, record { value = next; ts = if sle now cell.ts then cell.ts else now })

-- `parseCounterValue`
unfoldable pub parse_counter_value : Json → Bytes → Result ℕ
unfolding out_of_range
parse_counter_value json payload = elim (json.unmarshal_number payload) [
  | none ↦ err Error.not_a_number
  | some text ↦ elim (parse_int text) [
    | none ↦ err Error.not_an_integer
    | some v ↦ if out_of_range v then err Error.counter_out_of_range else ok v
  ]
]

-- The cell of the item at the pointer takes the outcome of an increment.
unfoldable pub store_cell : Ptr → Result ℕ × CounterCell → State → Result (ℕ × Bool) × State
store_cell p (err e, cell) s = (err e, s)
store_cell p (ok v, cell) s = (
  ok (v, false),
  record s {
    buf = record s.buf {
      heap = put_item p (record (s.buf.heap p) { counter = some cell }) s.buf.heap;
    };
  },
)

-- An increment through the cell of the item at the pointer.
unfoldable pub add_to_cell : Ptr → CounterCell → ℕ → ℕ → State → Result (ℕ × Bool) × State
unfolding atomic_counter_add store_cell
add_to_cell p cell by now s = store_cell p (atomic_counter_add cell by now) s

-- The item with a cell in the place of its payload.
abbrev pub promoted_item : Item → ℕ → ℕ → Item
promoted_item item value now = record item {
  counter = some (record { value = value; ts = now });
  payload = [];
  render_bytes = none;
}

-- Promote: the integer payload becomes a cell; the item changes only once the bytes are reserved.
unfoldable pub promote : Json → Ptr → ℕ → ℕ → State → Result (ℕ × Bool) × State
unfolding out_of_range reserve_if
promote json p by now s =
    let existing = s.buf.heap p in
    elim (parse_counter_value json existing.payload) [
      | err e ↦ (err e, s)
      | ok current ↦
          let value = add64 current by in
          let item = promoted_item existing value now in
          let delta = sub64 (approx_item_size item) (approx_item_size existing) in
          let r = reserve_if (s.buf.has_store && not (delta == 0)) delta s.ledger in
          if out_of_range value
          then (err (Error.counter_overflow current by), s)
          else elim (index_by_seq existing.seq s.buf) [
            | none ↦ (ok (0, false), s)
            | some i ↦
                if r.granted
                then (
                  ok (value, false),
                  record s {
                    buf = record s.buf {
                      heap = put_item (ptr_at s.buf i) item s.buf.heap;
                      bytes = add64 s.buf.bytes delta;
                    };
                    ledger = r.ledger;
                  },
                )
                else (err (Error.store_full r.current delta r.cap), record s { ledger = r.ledger })
          ]
    ]

abbrev pub new_counter : Bytes → Bytes → ℕ → ℕ → Uuid → ScopeBuffer → Item
new_counter scope id by now minted b = record {
  scope = scope;
  id = id;
  seq = add64 b.last_seq 1;
  ts = now;
  uuid = if b.has_store then minted else zero_uuid;
  payload = [];
  render_bytes = none;
  counter = some (record { value = by; ts = now });
}

-- Create: a fresh counter item, in byID whatever its id is. The freshness times of the scope and the
-- store stay.
unfoldable pub create_counter :
    (ℕ → ℕ → ℕ) → Bytes → Bytes → ℕ → ℕ → Uuid → State → Result (ℕ × Bool) × State
unfolding reserve_if store_item count_items
create_counter grow scope id by now minted s =
    let item = new_counter scope id by now minted s.buf in
    let size = approx_item_size item in
    let r = reserve_if s.buf.has_store size s.ledger in
    if item_cap_exceeded s.buf (length s.buf.items + 1)
    then (err (Error.scope_full (length s.buf.items) s.buf.max_items), s)
    else if r.granted
    then (
      ok (by, true),
      record s {
        buf = record (store_item grow item size s.buf) {
          by_id = insert Bytes-discrete id s.buf.next s.buf.by_id;
        };
        ledger = count_items s.buf.has_store 1 r.ledger;
      },
    )
    else (err (Error.store_full r.current size r.cap), record s { ledger = r.ledger })

-- `counterAddSlow`, under the exclusive lock: it looks again, since another call may have installed
-- the cell after the fast path looked.
unfoldable pub counter_add_slow :
    Json → (ℕ → ℕ → ℕ) → Bytes → Bytes → ℕ → ℕ → Uuid → State → Result (ℕ × Bool) × State
unfolding add_to_cell promote create_counter
counter_add_slow json grow scope id by now minted s =
    if s.buf.detached
    then (err Error.scope_detached, s)
    else elim (lookup Bytes-discrete id s.buf.by_id) [
      | none ↦ create_counter grow scope id by now minted s
      | some p ↦ elim (s.buf.heap p).counter [
        | some cell ↦ add_to_cell p cell by now s
        | none ↦ promote json p by now s
      ]
    ]

-- The fast path, under the shared lock: it answers only where a live scope has the cell.
unfoldable pub counter_add_fast : Bytes → ℕ → ℕ → State → Option (Result (ℕ × Bool) × State)
unfolding add_to_cell
counter_add_fast id by now s =
    if s.buf.detached then none else elim (lookup Bytes-discrete id s.buf.by_id) [
      | none ↦ none
      | some p ↦ elim (s.buf.heap p).counter [
        | none ↦ none
        | some cell ↦ some (add_to_cell p cell by now s)
      ]
    ]

-- `counterAdd` where nothing else runs between its two paths.
unfoldable pub counter_add :
    Json → (ℕ → ℕ → ℕ) → Bytes → Bytes → ℕ → ℕ → Uuid → State → Result (ℕ × Bool) × State
unfolding counter_add_fast counter_add_slow
counter_add json grow scope id by now minted s = elim (counter_add_fast id by now s) [
  | some r ↦ r
  | none ↦ counter_add_slow json grow scope id by now minted s
]
