-- ===== src/Item/Sizes.antt =====
-- How the byte cost of an item moves when its payload does.
use scopecache.Prelude.{ℕ, ◌+◌, ◌%◌, ◌<◌, ◌≡◌, none, some, Option, length, arith}
use scopecache.Word.{word}
use scopecache.Item.{
  Bytes, Item, CounterCell, slice_len, approx_item_size, payload_and_render_bytes,
}

-- The cost of a replaced payload differs by the difference of the two payload parts, whatever the
-- old item was.
pub approx_item_size-replace :
    (item : Item) (payload : Bytes) (render : Option Bytes) (ts : ℕ)
    → (approx_item_size
            (record item { payload = payload; ts = ts; render_bytes = render; counter = none })
          + payload_and_render_bytes item)
        % word
      ≡ (approx_item_size item + (length payload + slice_len render) % word) % word
unfolding approx_item_size payload_and_render_bytes
approx_item_size-replace item payload render ts = ground arith

pub approx_item_size-lt : (item : Item) → approx_item_size item < word
unfolding approx_item_size
approx_item_size-lt item = omega arith

pub payload_and_render_bytes-lt : (item : Item) → payload_and_render_bytes item < word
unfolding payload_and_render_bytes
payload_and_render_bytes-lt item = ground arith

-- The value and the time of a cell do not change the cost.
pub approx_item_size-cell :
    (item : Item) {old : CounterCell} (new : CounterCell)
    → item.counter ≡ some old
    → approx_item_size (record item { counter = some new }) ≡ approx_item_size item
unfolding approx_item_size
approx_item_size-cell item new e = ground arith
