-- ===== src/Tests/Effects.antt =====
-- What the operations do to the list of items, and what the reads hand out, on the test scope.
use scopecache.Prelude.{◌-◌, take, drop, ◌≡◌, ltb, none, length, arith, ℕ_discrete}
use scopecache.Map.Index.{find}
use scopecache.Item.{Bytes-discrete, materialise_counters_in_place}
use scopecache.Buffer.{id_tag, seq_tag, uuid_tag}
use scopecache.Buffer.Write.{append_item, update_by_id, update_by_seq, update_by_uuid}
use scopecache.Buffer.Delete.{
  delete_by_id, delete_by_seq, delete_by_uuid, delete_up_to_seq, delete_up_to_uuid,
}
use scopecache.Buffer.Read.{get_by_id, get_by_seq, get_by_uuid, tail_offset, since_seq}
use scopecache.Buffer.Contents.{contents}
use scopecache.Buffer.Effects.{Effect}
use scopecache.Buffer.Effects.Insert.{Appended, append_item-Effect}
use scopecache.Buffer.Effects.Update.{
  Updated, written, update_by_id-Effect, update_by_seq-Effect, update_by_uuid-Effect,
}
use scopecache.Buffer.Effects.Delete.{
  Deleted, delete_by_id-Effect, delete_by_seq-Effect, delete_by_uuid-Effect,
}
use scopecache.Buffer.Effects.Drain.{
  Drained, DrainedTo, delete_up_to_seq-Effect, delete_up_to_uuid-Effect,
}
use scopecache.Buffer.Read.Window.{
  after, read, since_seq-contents, tail_offset-contents, get_by_id-contents, get_by_seq-contents,
  get_by_uuid-contents,
}
use scopecache.Tests.{
  json, grow, nine, uuid, apple, pear, one, two, two-IsCoherent, one-Kept, one_left, two_short,
}

append_item-Effect_example :
    Effect one (Appended pear 6 one) (append_item json grow pear 6 (uuid 2) one)
append_item-Effect_example =
    append_item-Effect json grow pear 6 (uuid 2) one one-Kept.coherent one_left

update_by_id-Effect_example :
    Effect two
      (Updated Bytes-discrete id_tag apple.id (written json nine none 7) two)
      (update_by_id json apple.id nine none 7 two)
update_by_id-Effect_example = update_by_id-Effect json nine none 7 two two-IsCoherent apple.id

update_by_seq-Effect_example :
    Effect two
      (Updated ℕ_discrete seq_tag 2 (written json nine none 7) two)
      (update_by_seq json 2 nine none 7 two)
update_by_seq-Effect_example = update_by_seq-Effect json nine none 7 two two-IsCoherent 2

update_by_uuid-Effect_example :
    Effect two
      (Updated Bytes-discrete uuid_tag (uuid 2) (written json nine none 7) two)
      (update_by_uuid json (uuid 2) nine none 7 two)
update_by_uuid-Effect_example = update_by_uuid-Effect json nine none 7 two two-IsCoherent (uuid 2)

delete_by_id-Effect_example :
    Effect two (Deleted Bytes-discrete id_tag apple.id two) (delete_by_id apple.id 8 two)
delete_by_id-Effect_example = delete_by_id-Effect 8 two two-IsCoherent apple.id

delete_by_seq-Effect_example : Effect two (Deleted ℕ_discrete seq_tag 1 two) (delete_by_seq 1 8 two)
delete_by_seq-Effect_example = delete_by_seq-Effect 8 two two-IsCoherent 1

delete_by_uuid-Effect_example :
    Effect two (Deleted Bytes-discrete uuid_tag (uuid 1) two) (delete_by_uuid (uuid 1) 8 two)
delete_by_uuid-Effect_example = delete_by_uuid-Effect 8 two two-IsCoherent (uuid 1)

delete_up_to_seq-Effect_example : Effect two (Drained 1 two) (delete_up_to_seq 1 8 two)
delete_up_to_seq-Effect_example = delete_up_to_seq-Effect 8 two two-IsCoherent 1

delete_up_to_uuid-Effect_example :
    Effect two
      (DrainedTo (find Bytes-discrete uuid_tag (uuid 1) (contents two.buf)) two)
      (delete_up_to_uuid (uuid 1) 8 two)
delete_up_to_uuid-Effect_example = delete_up_to_uuid-Effect 8 two two-IsCoherent (uuid 1)

since_seq-contents_example : since_seq 1 5 two.buf ≡ (
  materialise_counters_in_place (take 5 (after 1 (contents two.buf))),
  ltb 5 (length (after 1 (contents two.buf))),
)
since_seq-contents_example =
    since_seq-contents two.buf two-IsCoherent 1 5 (omega arith) (omega arith) two_short

tail_offset-contents_example :
    let high = length two.buf.items - 1 in
    let low = high - 5 in
    tail_offset 5 1 two.buf ≡ (
      materialise_counters_in_place (take (high - low) (drop low (contents two.buf))),
      ltb 6 (length two.buf.items),
    )
tail_offset-contents_example =
    tail_offset-contents two.buf 5 1 (omega arith) (omega arith) (omega arith) two_short

get_by_id-contents_example :
    get_by_id apple.id two.buf ≡ read (find Bytes-discrete id_tag apple.id (contents two.buf))
get_by_id-contents_example = get_by_id-contents two.buf two-IsCoherent apple.id

get_by_seq-contents_example :
    get_by_seq 2 two.buf ≡ read (find ℕ_discrete seq_tag 2 (contents two.buf))
get_by_seq-contents_example = get_by_seq-contents two.buf two-IsCoherent 2

get_by_uuid-contents_example :
    get_by_uuid (uuid 2) two.buf ≡ read (find Bytes-discrete uuid_tag (uuid 2) (contents two.buf))
get_by_uuid-contents_example = get_by_uuid-contents two.buf two-IsCoherent (uuid 2)
