-- ===== src/Buffer/Replace.antt =====
-- The prepare-then-commit pipeline of buffer_replace.go, behind /warm and /rebuild.
pub mod Batch
pub mod Keeps
pub mod Commit
use scopecache.Prelude.{
  ℕ, zero, suc, ◌+◌, ◌-◌, ◌%◌, Bool, ◌==◌, if◌then◌else◌, ◌&&◌, List, [], ◌∷◌, none, some, length,
  get_or, map, sum_by, ℕ_discrete,
}
use scopecache.Word.{word, add64, sub64}
use scopecache.Map.{lookup, insert}
use scopecache.Item.{
  Bytes, Bytes-discrete, Uuid, zero_uuid, is_zero, is_empty, Item, empty_item, Json,
  render_or_precompute, approx_item_size, Error, Result, ok, err,
}
use scopecache.Ledger.{Ledger, bump_last_write_ts}
use scopecache.Buffer.{Ptr, Heap, ScopeBuffer, State, id_tag, seq_tag}
use scopecache.Buffer.Locked.{item_cap_exceeded, id_len}
use scopecache.Buffer.Delete.{index_items}

-- `scopeReplacement`, with the heap that its pointers are on.
pub record ScopeReplacement : Type 0 where
  pub heap : Heap
  pub next : Ptr
  pub items : List Ptr
  pub by_id : List (Bytes × Ptr)
  pub by_seq : List (ℕ × Ptr)
  pub by_uuid : List (Uuid × Ptr)
  pub last_seq : ℕ
  pub first_uuid : Uuid
  pub last_uuid : Uuid
  pub id_key_bytes : ℕ

-- An item of the batch as it will be stored, `n` items into the batch.
unfoldable pub stamp_item : Json → Bool → (ℕ → Uuid) → ℕ → ℕ → Item → Item
stamp_item json mint mints now n src = record src {
  counter = none;
  seq = (n + 1) % word;
  ts = now;
  uuid = if is_zero src.uuid && mint then mints n else src.uuid;
  render_bytes = render_or_precompute json src.render_bytes src.payload;
}

-- The first loop: ids that were seen before stop the batch. `seen` is a set, a map to nothing.
unfoldable pub stamp_items :
    Json → Bool → (ℕ → Uuid) → ℕ → ℕ → List (Bytes × ℕ) → List Item → Result (List Item)
stamp_items json mint mints now n seen [] = ok []
stamp_items json mint mints now n seen (src ∷ rest) =
    let seen' = if is_empty src.id then seen else insert Bytes-discrete src.id 0 seen in
    let tail = stamp_items json mint mints now (n + 1) seen' rest in
    let more : Result (List Item) = elim tail [
      | ok built ↦ ok (stamp_item json mint mints now n src ∷ built)
      | err e ↦ err e
    ] in
    elim (lookup Bytes-discrete src.id seen) [
      | none ↦ more
      | some _ ↦ if is_empty src.id then more else err (Error.duplicate_id_in_scope src.id)
    ]

-- The pointers of a batch of `n` items from `p` on.
unfoldable pub ptrs_from : Ptr → ℕ → List Ptr
ptrs_from p zero = []
ptrs_from p (suc n) = p ∷ ptrs_from (p + 1) n

abbrev pub heap_of : List Item → Heap
heap_of items p = get_or items p empty_item

-- The third loop: a uuid that is already in the map stops the batch.
unfoldable pub index_uuids : Heap → List Ptr → List (Uuid × Ptr) → Result (List (Uuid × Ptr))
index_uuids heap [] m = ok m
index_uuids heap (p ∷ ps) m =
    let u = (heap p).uuid in
    let skipped = index_uuids heap ps m in
    let added = index_uuids heap ps (insert Bytes-discrete u p m) in
    if is_zero u then skipped else elim (lookup Bytes-discrete u m) [
      | none ↦ added
      | some _ ↦ err (Error.duplicate_uuid_in_scope u)
    ]

abbrev pub empty_replacement : ScopeReplacement
empty_replacement = record {
  heap = heap_of [];
  next = 0;
  items = [];
  by_id = [];
  by_seq = [];
  by_uuid = [];
  last_seq = 0;
  first_uuid = zero_uuid;
  last_uuid = zero_uuid;
  id_key_bytes = 0;
}

-- The state over a batch that is stamped and has the given map of its uuids.
unfoldable pub filled : List Item → List (Uuid × Ptr) → ScopeReplacement
unfolding ptrs_from index_items
filled built by_uuid =
    let heap = heap_of built in
    let ptrs = ptrs_from 0 (length built) in
    record {
      heap = heap;
      next = length built;
      items = ptrs;
      by_id = index_items Bytes-discrete (λ p. id_tag (heap p)) ptrs [];
      by_seq = index_items ℕ_discrete (λ p. seq_tag (heap p)) ptrs [];
      by_uuid = by_uuid;
      last_seq = length built % word;
      first_uuid = (heap 0).uuid;
      last_uuid = (heap (length built - 1)).uuid;
      id_key_bytes = sum_by (λ p. id_len (heap p)) ptrs % word;
    }

unfoldable pub assemble : List Item → Result ScopeReplacement
unfolding filled index_uuids
assemble built = elim (index_uuids (heap_of built) (ptrs_from 0 (length built)) []) [
  | err e ↦ err e
  | ok by_uuid ↦ ok (filled built by_uuid)
]

-- `buildReplacementState`; `mints n` is the uuid that is minted for the item at index n.
unfoldable pub build_replacement_state :
    Json → List Item → Bool → (ℕ → Uuid) → ℕ → Result ScopeReplacement
unfolding stamp_items assemble
build_replacement_state json [] mint mints now = ok empty_replacement
build_replacement_state json (i ∷ is) mint mints now =
    elim (stamp_items json mint mints now 0 [] (i ∷ is)) [
      | err e ↦ err e
      | ok built ↦ assemble built
    ]

unfoldable pub sum_item_bytes : Heap → List Ptr → ℕ
sum_item_bytes heap items = sum_by (λ p. approx_item_size (heap p)) items % word

-- The buffer with the contents of the replacement.
unfoldable pub adopt : ScopeReplacement → ℕ → ℕ → ScopeBuffer → ScopeBuffer
adopt r new_bytes now b = record b {
  heap = r.heap;
  next = r.next;
  items = r.items;
  items_cap = length r.items;
  by_id = r.by_id;
  by_seq = r.by_seq;
  by_uuid = r.by_uuid;
  last_seq = r.last_seq;
  first_uuid = r.first_uuid;
  last_uuid = r.last_uuid;
  bytes = new_bytes;
  id_key_bytes = r.id_key_bytes;
  last_write_ts = now;
}

-- The item count of the store moves by the difference of the two scopes.
abbrev pub swap_items : ScopeReplacement → ScopeBuffer → Ledger → Ledger
swap_items r b l = record l {
  total_items = add64 l.total_items (sub64 (length r.items) (length b.items));
}

-- `commitReplacement`
unfoldable pub commit_replacement : ScopeReplacement → ℕ → ℕ → State → State
unfolding adopt
commit_replacement r new_bytes now s =
    let l = swap_items r s.buf s.ledger in
    record s {
      buf = adopt r new_bytes now s.buf;
      ledger =
          if s.buf.has_store
          then bump_last_write_ts now
              (record l { total_bytes = add64 l.total_bytes (sub64 new_bytes s.buf.bytes) })
          else s.ledger;
    }

-- `commitReplacementPreReserved`: the batch has reserved new_bytes - old_snapshot; what other
-- writes did to the scope since the snapshot is given back.
unfoldable pub commit_replacement_pre_reserved : ScopeReplacement → ℕ → ℕ → ℕ → State → State
unfolding adopt
commit_replacement_pre_reserved r new_bytes old_snapshot now s =
    let l = swap_items r s.buf s.ledger in
    let drift = sub64 s.buf.bytes old_snapshot in
    record s {
      buf = adopt r new_bytes now s.buf;
      ledger =
          if s.buf.has_store
          then bump_last_write_ts now
              (if drift == 0 then l else record l { total_bytes = sub64 l.total_bytes drift })
          else s.ledger;
    }

-- `replaceAll`: the single-scope form, with the items of the scope behind it.
unfoldable pub replace_all : Json → List Item → (ℕ → Uuid) → ℕ → State → Result (List Item) × State
unfolding build_replacement_state sum_item_bytes commit_replacement
replace_all json items mints now s =
    if item_cap_exceeded s.buf (length items)
    then (err (Error.scope_full (length items) s.buf.max_items), s)
    else elim (build_replacement_state json items s.buf.has_store mints now) [
      | err e ↦ (err e, s)
      | ok r ↦
          let s' = commit_replacement r (sum_item_bytes r.heap r.items) now s in
          (ok (map s'.buf.heap s'.buf.items), s')
    ]
