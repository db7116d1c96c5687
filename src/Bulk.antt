-- ===== src/Bulk.antt =====
-- The buffer that `/rebuild` makes of a prepared batch (rebuildAll in bulk.go), which is filled by hand
-- and not by commitReplacement.
use scopecache.Prelude.{ℕ, ◌<◌, ◌≡◌, sym, ◌∙◌, true, List, length}
use scopecache.Word.{word}
use scopecache.Item.{Item, Json, Uuid, ok}
use scopecache.Ledger.{Ledger}
use scopecache.Buffer.{ScopeBuffer, new_scope_buffer}
use scopecache.Buffer.Invariant.{IsCoherent}
use scopecache.Buffer.Replace.{ScopeReplacement, build_replacement_state, sum_item_bytes, adopt}
use scopecache.Buffer.Replace.Keeps.{build_replacement_state-Adopted}

-- `s.newscopeBuffer()` (store.go)
unfoldable pub attached_scope_buffer : Ledger → ℕ → ScopeBuffer
unfolding new_scope_buffer
attached_scope_buffer l now = record (new_scope_buffer l.default_max_items now) {
  has_store = true;
  max_item_bytes = l.max_item_bytes;
}

-- The fresh buffer takes over every part of the replacement but its idKeyBytes.
unfoldable pub rebuilt_scope_buffer : ScopeReplacement → Ledger → ℕ → ScopeBuffer
unfolding attached_scope_buffer sum_item_bytes
rebuilt_scope_buffer r l now = record (attached_scope_buffer l now) {
  heap = r.heap;
  next = r.next;
  items = r.items;
  items_cap = length r.items;
  by_id = r.by_id;
  by_seq = r.by_seq;
  by_uuid = r.by_uuid;
  last_seq = r.last_seq;
  first_uuid = r.first_uuid;
  last_uuid = r.last_uuid;
  bytes = sum_item_bytes r.heap r.items;
}

-- The buffer that rebuildAll fills by hand from a prepared batch of fewer than 2 ^ 64 items
-- satisfies the invariant of scopes exactly where the idKeyBytes that the batch prepared is 0,
-- since rebuildAll does not copy it.
pub rebuilt_scope_buffer-IsCoherent_iff :
    (json : Json) (mints : ℕ → Uuid) (items : List Item) (now : ℕ) (r : ScopeReplacement)
    (l : Ledger) (later : ℕ)
    → length items < word
    → build_replacement_state json items true mints now ≡ ok r
    → (IsCoherent (rebuilt_scope_buffer r l later) → r.id_key_bytes ≡ 0)
      × (r.id_key_bytes ≡ 0 → IsCoherent (rebuilt_scope_buffer r l later))
unfolding rebuilt_scope_buffer attached_scope_buffer new_scope_buffer adopt
rebuilt_scope_buffer-IsCoherent_iff json mints items now r l later short e =
    let c =
      build_replacement_state-Adopted json true mints now items r short e
        (attached_scope_buffer l later) later in
    (
      λ d. c.id_bytes_sum ∙ sym d.id_bytes_sum,
      λ none. record {
        ids = c.ids;
        seqs = c.seqs;
        uuids = c.uuids;
        ascending = c.ascending;
        seq_range = c.seq_range;
        allocated = c.allocated;
        bytes_sum = c.bytes_sum;
        id_bytes_sum = sym none ∙ c.id_bytes_sum;
        last_seq_word = c.last_seq_word;
      },
    )
