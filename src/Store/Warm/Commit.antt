-- ===== src/Store/Warm/Commit.antt =====
-- The plans that Phase 1 makes of an input with one entry for each scope, and their commit.
use scopecache.Prelude.{
  ℕ, suc, ◌<◌, ◌≡◌, ◌≢◌, refl, sym, ◌∙◌, ap, subst, Bool, true, false, List, [], ◌∷◌, All, length,
  arith, if_intro, option_intro,
}
use scopecache.Word.{word, slt}
use scopecache.Item.{Bytes, Uuid, Item, Json, result_intro, same_bytes}
use scopecache.Ledger.{Ledger, is_reserved_scope}
use scopecache.Buffer.Replace.{build_replacement_state}
use scopecache.Buffer.Replace.Keeps.{build_replacement_state-Adopted}
use scopecache.Validation.{Endpoint, validate_scope}
use scopecache.Validation.Requests.{validate_write_item}
use scopecache.Store.{Store}
use scopecache.Store.Accounts.{Accounts}
use scopecache.Store.Warm.{
  Plan, Planned, planned, offends, Offender, BulkError, BulkResult, accepted, aborted, check_items,
  build_plan, plan_scope, plan_all, plans_or_offenders, commit_batch,
}
use scopecache.Store.Warm.Steps.{IsReady}
use scopecache.Store.Warm.Balance.{DistinctPlans}
use scopecache.Store.Batch.{commit_batch-Accounts, Batch-Accounts}
use scopecache.Store.Moves.{Batch}

bulk_intro :
    {A B : Type 0} (P : B → Type 0) (r : BulkResult A) {f : A → B} {g : BulkError → B}
    → ((e : BulkError) → r ≡ aborted e → P (g e))
    → ((a : A) → r ≡ accepted a → P (f a))
    → P (elim r [ aborted e ↦ g e | accepted a ↦ f a ])
bulk_intro P (accepted a) g f = f a refl
bulk_intro P (aborted e) g f = g e refl

bool_intro :
    {B : Type 0} (P : B → Type 0) (b : Bool) {x y : B}
    → (b ≡ true → P x)
    → (b ≡ false → P y)
    → P (elim b [ true ↦ x | false ↦ y ])
bool_intro P true t f = t refl
bool_intro P false t f = f refl

-- A plan for the scope that can be committed.
record Fits (scope : Bytes) (p : Plan) : Type 0 where
  prepared : IsReady p
  for_scope : p.scope ≡ scope

abbrev FitsPlanned : Bytes → BulkResult Planned → Type 0
FitsPlanned scope (aborted e) = Unit
FitsPlanned scope (accepted (offends o)) = Unit
FitsPlanned scope (accepted (planned p)) = Fits scope p

build_plan-Fits :
    (json : Json) (mints : ℕ → Uuid) (now max_items : ℕ) (scope : Bytes) (items : List Item)
    → length items < word
    → FitsPlanned scope (build_plan json mints now max_items scope items)
unfolding build_plan
build_plan-Fits json mints now max_items scope items short =
    if_intro (FitsPlanned scope) (slt max_items (length items)) (λ _. tt)
      (λ _.
        result_intro (FitsPlanned scope) (build_replacement_state json items true mints now)
          (λ e _. tt)
          (λ r e. record {
            prepared = record {
              ready = build_replacement_state-Adopted json true mints now items r short e;
            };
            for_scope = refl;
          }))

abbrev SameLength : List Item → BulkResult (List Item) → Type 0
SameLength items (aborted e) = Unit
SameLength items (accepted checked) = length checked ≡ length items

check_items-SameLength :
    (json : Json) (endpoint : Endpoint) (cap : ℕ) (scope : Bytes) (i : ℕ) (items : List Item)
    → SameLength items (check_items json endpoint cap scope i items)
unfolding check_items
check_items-SameLength json endpoint cap scope i [] = refl
check_items-SameLength json endpoint cap scope i (item ∷ items) =
    let P = SameLength (item ∷ items) in
    let rest = check_items-SameLength json endpoint cap scope (suc i) items in
    option_intro P (validate_write_item json item endpoint cap).0
      (λ _.
        bool_intro P (same_bytes item.scope scope)
          (λ _.
            bulk_intro P (check_items json endpoint cap scope (suc i) items) (λ e _. tt)
              (λ others e. ap suc (subst (SameLength items) e rest)))
          (λ _. tt))
      (λ r _. tt)

plan_scope-Fits :
    (json : Json) (mints : ℕ → Uuid) (now : ℕ) (endpoint : Endpoint) (l : Ledger) (scope : Bytes)
    (items : List Item)
    → length items < word
    → FitsPlanned scope (plan_scope json mints now endpoint l scope items)
unfolding plan_scope
plan_scope-Fits json mints now endpoint l scope items short =
    let P = FitsPlanned scope in
    option_intro P (validate_scope scope)
      (λ _.
        bool_intro P (is_reserved_scope scope) (λ _. tt)
          (λ _.
            bulk_intro P (check_items json endpoint l.max_item_bytes scope 0 items) (λ e _. tt)
              (λ checked e.
                let same =
                  subst (SameLength items) e
                    (check_items-SameLength json endpoint l.max_item_bytes scope 0 items) in
                build_plan-Fits json mints now l.default_max_items scope checked
                  (omega (arith, same, short)))))
      (λ r _. tt)

abbrev pub DistinctKeys : List (Bytes × List Item) → Type 0
DistinctKeys [] = Unit
DistinctKeys ((scope, items) ∷ grouped) = All (λ e. e.0 ≢ scope) grouped × DistinctKeys grouped

-- The plans of an input: each fits, they are for distinct scopes, and for scopes of the input only.
record GoodPlans (grouped : List (Bytes × List Item)) (plans : List Plan) : Type 0 where
  all_ready : All IsReady plans
  all_distinct : DistinctPlans plans
  all_named :
      (name : Bytes) → All (λ e. e.0 ≢ name) grouped → All (λ (p : Plan). p.scope ≢ name) plans

abbrev Good : List (Bytes × List Item) → BulkResult (List Plan × List Offender) → Type 0
Good grouped (aborted e) = Unit
Good grouped (accepted (plans, offenders)) = GoodPlans grouped plans

plan_all-Good :
    (json : Json) (mints : ℕ → ℕ → Uuid) (now : ℕ) (endpoint : Endpoint) (l : Ledger) (k : ℕ)
    (grouped : List (Bytes × List Item))
    → All (λ e. length e.1 < word) grouped
    → DistinctKeys grouped
    → Good grouped (plan_all json mints now endpoint l k grouped)
unfolding plan_all
plan_all-Good json mints now endpoint l k [] short distinct = record {
  all_ready = tt;
  all_distinct = tt;
  all_named = λ name h. tt;
}
plan_all-Good json mints now endpoint l k ((scope, items) ∷ grouped) short distinct =
    let P = Good ((scope, items) ∷ grouped) in
    let others = plan_all-Good json mints now endpoint l (suc k) grouped short.1 distinct.1 in
    bulk_intro P (plan_scope json (mints k) now endpoint l scope items) (λ e _. tt)
      (λ one e.
        bulk_intro P (plan_all json mints now endpoint l (suc k) grouped) (λ x _. tt)
          (λ found h.
            add one found
              (subst (FitsPlanned scope) e
                (plan_scope-Fits json (mints k) now endpoint l scope items short.0))
              (subst (Good grouped) h others)))
  where
    add :
        (one : Planned) (found : List Plan × List Offender)
        → FitsPlanned scope (accepted one)
        → GoodPlans grouped found.0
        → Good ((scope, items) ∷ grouped) (elim one [
          | planned p ↦ accepted (p ∷ found.0, found.1)
          | offends o ↦ accepted (found.0, o ∷ found.1)
        ])
    add (offends o) found fits good = record {
      all_ready = good.all_ready;
      all_distinct = good.all_distinct;
      all_named = λ name h. good.all_named name h.1;
    }
    add (planned p) found fits good = record {
      all_ready = (fits.prepared, good.all_ready);
      all_distinct = (
        subst (λ name. All (λ (q : Plan). q.scope ≢ name) found.0) (sym fits.for_scope)
            (good.all_named scope distinct.0),
        good.all_distinct,
      );
      all_named = λ name h. (λ e. h.0 (sym fits.for_scope ∙ e), good.all_named name h.1);
    }

plans_or_offenders-Good :
    (grouped : List (Bytes × List Item)) (r : BulkResult (List Plan × List Offender))
    (plans : List Plan)
    → Good grouped r
    → plans_or_offenders r ≡ accepted plans
    → GoodPlans grouped plans
plans_or_offenders-Good grouped (aborted e) plans good h = absurd (ground arith)
plans_or_offenders-Good grouped (accepted (found, [])) plans good h =
    subst (GoodPlans grouped) (cc h) good
plans_or_offenders-Good grouped (accepted (found, o ∷ os)) plans good h = absurd (ground arith)

planned-Good :
    (json : Json) (mints : ℕ → ℕ → Uuid) (now : ℕ) (endpoint : Endpoint)
    (grouped : List (Bytes × List Item)) (plans : List Plan) (l : Ledger)
    → All (λ e. length e.1 < word) grouped
    → DistinctKeys grouped
    → plans_or_offenders (plan_all json mints now endpoint l 0 grouped) ≡ accepted plans
    → GoodPlans grouped plans
planned-Good json mints now endpoint grouped plans l short distinct planned_all =
    plans_or_offenders-Good grouped _ plans
      (plan_all-Good json mints now endpoint l 0 grouped short distinct) planned_all

-- Where Phase 1 plans an input that has each scope once and fewer than 2 ^ 64 items for each,
-- committing the plans keeps the account of the scopes of whatever store the commit meets, whether
-- the reservation is granted or refused.
pub plan_all-commit_batch :
    (json : Json) (mints : ℕ → ℕ → Uuid) (now : ℕ) (endpoint : Endpoint)
    (grouped : List (Bytes × List Item)) (plans : List Plan) (s t : Store)
    → All (λ e. length e.1 < word) grouped
    → DistinctKeys grouped
    → plans_or_offenders (plan_all json mints now endpoint s.ledger 0 grouped) ≡ accepted plans
    → Accounts t
    → Accounts (commit_batch now plans t).1
plan_all-commit_batch json mints now endpoint grouped plans s t short distinct planned_all a =
    let good =
      planned-Good json mints now endpoint grouped plans s.ledger short distinct planned_all in
    commit_batch-Accounts json (λ _ n. n) now plans t a good.all_ready good.all_distinct

-- Where Phase 1 plans an input that has each scope once and fewer than 2 ^ 64 items for each, every
-- run of the locked phases of that batch keeps the account of the scopes of the store that it
-- starts on, whether the reservation is granted or refused: ahead of and between the snapshots, the
-- reservation and the commits, other writers may make requests through pointers to buffers of the
-- store, where an addition to a live scope has a sequence number left, a uuid not yet in the scope
-- and, for a counter, an id that is not empty.
pub plan_all-Batch :
    (json : Json) (grow : ℕ → ℕ → ℕ) (mints : ℕ → ℕ → Uuid) (now : ℕ) (endpoint : Endpoint)
    (grouped : List (Bytes × List Item)) (plans : List Plan) (s t u : Store)
    → All (λ e. length e.1 < word) grouped
    → DistinctKeys grouped
    → plans_or_offenders (plan_all json mints now endpoint s.ledger 0 grouped) ≡ accepted plans
    → Accounts t
    → Batch json grow plans t u
    → Accounts u
plan_all-Batch json grow mints now endpoint grouped plans s t u short distinct planned_all a batch =
    let good =
      planned-Good json mints now endpoint grouped plans s.ledger short distinct planned_all in
    Batch-Accounts json grow plans t u a good.all_ready good.all_distinct batch
