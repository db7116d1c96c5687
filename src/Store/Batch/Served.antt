-- ===== src/Store/Batch/Served.antt =====
-- A request through an earlier pointer to a buffer, in a store whose byte total may include what a
-- batch has reserved.
use scopecache.Prelude.{
  ℕ, ◌+◌, ◌%◌, ◌≡◌, refl, sym, ◌∙◌, ap, subst, true, false, some, arith, Option-cases, inl, inr,
}
use scopecache.Word.{word, add64, sub64}
use scopecache.Map.Entries.{name_of}
use scopecache.Item.{Bytes, Bytes-discrete, Json}
use scopecache.Buffer.History.{Request, serve, Admissible, serve-Sound}
use scopecache.Buffer.Served.{serve-scope_count, serve_detached}
use scopecache.Store.{Store, BufPtr, put_buf}
use scopecache.Store.Accounts.{Accounts}
use scopecache.Store.Steps.{put_buf-IsScopeMap, put_buf-IsCounted, put_buf_back}
use scopecache.Store.Warm.Steps.{owed_store}
use scopecache.Store.Warm.Balance.{owed-Accounts}
use scopecache.Store.Moves.{request, view, serve_at, Possible}

-- A step that moves the byte total by as much as the total that would balance.
pub record Served (s t : Store) (fair : ℕ) : Type 0 where
  pub fair' : ℕ
  pub account : Accounts (owed_store fair' t)
  pub moved : (t.ledger.total_bytes + fair) % word ≡ (s.ledger.total_bytes + fair') % word

module _ (json : Json) (grow : ℕ → ℕ → ℕ) where
  -- A request on a live scope of the map.
  serve_at-mapped :
      (q : BufPtr) (r : Request) (s : Store) (fair : ℕ) (name : Bytes)
      → Accounts (owed_store fair s)
      → name_of Bytes-discrete q s.scopes ≡ some name
      → ((s.bufs q).detached ≡ false → Admissible json grow r (view q s))
      → Served s (serve_at json grow q r s) fair
  unfolding serve_at
  serve_at-mapped q r s fair name a e can =
      let live = a.map.live q name e in
      let t = serve json grow r (view q s) in
      let sound = serve-Sound json grow r (view q s) live.coherent (can live.alive) in
      let bytes = sound.in_step.bytes_in_step live.attached in
      let fair_now = add64 fair (sub64 t.ledger.total_bytes s.ledger.total_bytes) in
      record {
        fair' = fair_now;
        account = record {
          map =
              put_buf-IsScopeMap s.bufs s.next_buf q s.scopes t.buf a.map
                (λ old. record {
                  coherent = sound.coherent;
                  attached = sound.in_step.wired ∙ old.attached;
                  alive = sound.in_step.alive ∙ old.alive;
                })
                (λ old. record {
                  cut_off = sound.in_step.wired ∙ old.cut_off;
                  dead = sound.in_step.alive ∙ old.dead;
                });
          counted =
              put_buf-IsCounted s.bufs s.next_buf q s.scopes t.buf
                (record (s.ledger) { total_bytes = fair })
                (record (t.ledger) { total_bytes = fair_now }) a.map.unique e a.counted
                (omega (arith, bytes)) (sound.in_step.items_in_step live.attached)
                (serve-scope_count json grow r (view q s));
        };
        moved = omega arith;
      }

  -- A request through a stale pointer is refused.
  serve_at_stale :
      (q : BufPtr) (r : Request) (s : Store)
      → (s.bufs q).detached ≡ true
      → serve_at json grow q r s ≡ s
  unfolding serve_at
  serve_at_stale q r s dead =
      ap (λ t. record s { ledger = t.ledger; bufs = put_buf q t.buf s.bufs })
        (serve_detached json grow r (view q s) dead)
      ∙ ap (λ b. record s { bufs = b }) (put_buf_back q s.bufs)

  pub serve_at-Served :
      (q : BufPtr) (r : Request) (s : Store) (fair : ℕ)
      → Accounts (owed_store fair s)
      → Possible json grow (request q r) s
      → Served s (serve_at json grow q r s) fair
  serve_at-Served q r s fair a can = elim (Option-cases (name_of Bytes-discrete q s.scopes)) [
    | inr (name, e) ↦ serve_at-mapped q r s fair name a e can.1
    | inl free ↦
        subst (λ t. Served s t fair) (sym (serve_at_stale q r s (a.map.orphaned q can.0 free).dead))
          (record { fair' = fair; account = a; moved = refl })
  ]

  pub serve_at-Accounts :
      (q : BufPtr) (r : Request) (s : Store)
      → Accounts s
      → Possible json grow (request q r) s
      → Accounts (serve_at json grow q r s)
  serve_at-Accounts q r s a can =
      let one = serve_at-Served q r s s.ledger.total_bytes a can in
      owed-Accounts (serve_at json grow q r s) one.fair' one.account (omega (arith, one.moved))
