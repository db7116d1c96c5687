-- ===== src/Tests/Batches.antt =====
-- Replacements, counters and their text on concrete input.
use scopecache.Prelude.{◌+◌, ◌%◌, ◌≡◌, refl, true, [], ◌∷◌, length, arith, List, false}
use scopecache.Word.{word}
use scopecache.Item.{Item, Result, ok, err, CounterCell, render_counter_payload}
use scopecache.Buffer.{State}
use scopecache.Buffer.Counter.{
  atomic_counter_add, max_counter_value, min_counter_value, out_of_range, parse_counter_value,
}
use scopecache.Buffer.Invariant.{IsCoherent}
use scopecache.Buffer.Kept.{Kept}
use scopecache.Buffer.Delete.{index_items}
use scopecache.Bulk.{rebuilt_scope_buffer, rebuilt_scope_buffer-IsCoherent_iff}
use scopecache.Buffer.Replace.{
  ScopeReplacement, empty_replacement, build_replacement_state, replace_all,
  commit_replacement_pre_reserved, stamp_items, stamp_item, index_uuids, filled, assemble,
  ptrs_from,
}
use scopecache.Buffer.Replace.Commit.{replace_all-Kept, commit_replacement_pre_reserved_lem}
use scopecache.Buffer.Counter.Range.{
  Increment, atomic_counter_add-Increment, parse_counter_value-render_counter_payload,
}
use scopecache.Tests.{json, uuid, ledger, apple, pear, two, two-IsCoherent, program}

replace_all-Kept_example : Kept two (replace_all json (pear ∷ apple ∷ []) (λ n. uuid (n + 8)) 9 two)
replace_all-Kept_example =
    replace_all-Kept json (pear ∷ apple ∷ []) (λ n. uuid (n + 8)) 9 two two-IsCoherent (omega arith)

abbrev batch : List Item
batch = pear ∷ apple ∷ []

abbrev prepared : Result ScopeReplacement → ScopeReplacement
prepared (ok r) = r
prepared (err e) = empty_replacement

unfoldable pub batch_program : Unit {0}
unfolding build_replacement_state stamp_items stamp_item index_uuids filled assemble ptrs_from
    index_items
batch_program = tt

two_attached : two.buf.has_store ≡ true
unfolding program
two_attached = refl

abbrev replacement : ScopeReplacement
replacement = prepared (build_replacement_state json batch true (λ n. uuid (n + 8)) 9)

-- A batch reserved the growth from 100 to 300 bytes when the total was 1000.
abbrev reserved : State
reserved = record two { ledger = record ledger { total_bytes = 1200 } }

commit_replacement_pre_reserved_lem_example :
    let t = commit_replacement_pre_reserved replacement 300 100 9 reserved in
    ((t.ledger.total_bytes + two.buf.bytes) % word ≡ (1000 + 300) % word)
    × ((t.ledger.total_items + length two.buf.items) % word
        ≡ (reserved.ledger.total_items + length t.buf.items) % word)
commit_replacement_pre_reserved_lem_example =
    commit_replacement_pre_reserved_lem replacement 9 reserved 300 100 1000 two_attached refl

batch_prepared : build_replacement_state json batch true (λ n. uuid (n + 8)) 9 ≡ ok replacement
unfolding program batch_program
batch_prepared = refl

rebuilt_scope_buffer-IsCoherent_iff_example :
    (IsCoherent (rebuilt_scope_buffer replacement ledger 9) → replacement.id_key_bytes ≡ 0)
    × (replacement.id_key_bytes ≡ 0 → IsCoherent (rebuilt_scope_buffer replacement ledger 9))
rebuilt_scope_buffer-IsCoherent_iff_example =
    rebuilt_scope_buffer-IsCoherent_iff json (λ n. uuid (n + 8)) batch 9 replacement ledger 9
      (omega arith) batch_prepared

-- The batch has ids of two bytes in total, so that its rebuilt buffer breaks the invariant.
replacement_id_key_bytes : replacement.id_key_bytes ≡ 2
unfolding program batch_program
replacement_id_key_bytes = refl

atomic_counter_add-Increment_example :
    Increment
      (record { value = max_counter_value; ts = 3 })
      1
      (atomic_counter_add (record { value = max_counter_value; ts = 3 }) 1 9)
atomic_counter_add-Increment_example =
    atomic_counter_add-Increment (record { value = max_counter_value; ts = 3 }) 1 9

-- A counter at the negative end of the range.
abbrev lowest : CounterCell
lowest = record { value = min_counter_value; ts = 3 }

lowest_inside : out_of_range min_counter_value ≡ false
unfolding out_of_range
lowest_inside = refl

parse_counter_value-render_counter_payload_example :
    parse_counter_value json (render_counter_payload lowest) ≡ ok min_counter_value
parse_counter_value-render_counter_payload_example =
    parse_counter_value-render_counter_payload json lowest (omega arith) lowest_inside refl
