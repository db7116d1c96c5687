-- ===== src/Buffer/Counter/Range.antt =====
-- The range of counters: an increment never leaves ±(2 ^ 53 - 1), and what is
-- shown of a counter reads back as its value.
use scopecache.Prelude.{ℕ, ◌<◌, ◌≤◌, ◌≡◌, refl, true, false, some, ◌⊎◌, arith, if_intro}
use scopecache.Word.{word, add64, sle}
use scopecache.Decimal.{parse_int}
use scopecache.Decimal.RoundTrip.{parse_int-append_int}
use scopecache.Item.{CounterCell, Error, Json, render_counter_payload, Result, ok, err}
use scopecache.Buffer.Counter.{
  max_counter_value, min_counter_value, out_of_range, atomic_counter_add, parse_counter_value,
}

-- What an increment of a cell promises.
pub record Increment (cell : CounterCell) (by : ℕ) (r : Result ℕ × CounterCell) : Type 0 where
  pub refused : (e : Error) → r.0 ≡ err e → r.1 ≡ cell
  pub value : (v : ℕ) → r.0 ≡ ok v → (v ≡ add64 cell.value by) × (r.1.value ≡ v)
  pub range : (v : ℕ) → r.0 ≡ ok v → (v ≤ max_counter_value) ⊎ (min_counter_value ≤ v)
  pub later : sle cell.ts r.1.ts ≡ true

-- atomicCounterAdd either returns an error and leaves the cell as it was, or returns the sum of the
-- value and the increment as int64, which is within plus or minus (2 ^ 53 - 1) and is the new value
-- of the cell; the time of the cell does not go back.
pub atomic_counter_add-Increment :
    (cell : CounterCell) (by now : ℕ) → Increment cell by (atomic_counter_add cell by now)
unfolding atomic_counter_add out_of_range
atomic_counter_add-Increment cell by now =
    if_intro (Increment cell by) (out_of_range (add64 cell.value by))
      (λ past. record {
        refused = λ e h. refl;
        value = λ v h. cc;
        range = λ v h. cc;
        later = ground arith;
      })
      (λ inside. record {
        refused = λ e h. cc;
        value = λ v h. (cc, cc);
        range = λ v h. ground arith;
        later = ground arith;
      })

parse_int-render :
    (cell : CounterCell)
    → cell.value < word
    → parse_int (render_counter_payload cell) ≡ some cell.value
unfolding render_counter_payload
parse_int-render cell small = parse_int-append_int cell.value small

-- The payload that reads show of a counter whose value is an int64 within plus or minus (2 ^ 53 -
-- 1) is parsed by parseCounterValue as that value, where the JSON library gives the text of the
-- number literal as it stands.
pub parse_counter_value-render_counter_payload :
    (json : Json) (cell : CounterCell)
    → cell.value < word
    → out_of_range cell.value ≡ false
    → json.unmarshal_number (render_counter_payload cell) ≡ some (render_counter_payload cell)
    → parse_counter_value json (render_counter_payload cell) ≡ ok cell.value
unfolding parse_counter_value
parse_counter_value-render_counter_payload json cell small inside reads =
    let parsed : parse_int (render_counter_payload cell) ≡ some cell.value =
      parse_int-render cell small in
    rw (reads, parsed, inside, parse_counter_value) refl
