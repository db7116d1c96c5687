-- ===== src/Buffer/Effects.antt =====
-- What the operations of a scope do to its list of items: an error changes nothing, and a result
-- comes with the change that the operation promises.
pub mod Insert
pub mod Update
pub mod Delete
pub mod Drain
use scopecache.Prelude.{ℕ, ◌≡◌, refl, ap, subst, Bool, false, Option, none, some, arith}
use scopecache.Item.{Item, Error, Result, ok, err}
use scopecache.Buffer.{State}
use scopecache.Buffer.Locked.{reserve_if}
use scopecache.Buffer.Kept.{reserve_if-refused}

-- The number of items that a lookup by key gives.
abbrev pub hits : Option Item → ℕ
hits none = 0
hits (some item) = 1

-- `done` is what the operation promises for a result and the state behind it.
pub record Effect {A : Type 0} (s : State) (promise : A → State → Type 0) (r : Result A × State)
    : Type 0 where
  pub refused : (e : Error) → r.0 ≡ err e → r.1 ≡ s
  pub done : (a : A) → r.0 ≡ ok a → promise a r.1

ok-injective : {A : Type 0} (a b : A) → ok a ≡ ok b → a ≡ b
ok-injective a b e = cc

pub Effect-ok :
    {A : Type 0} {s t : State} {promise : A → State → Type 0} (a : A)
    → promise a t
    → Effect s promise (ok a, t)
Effect-ok {t} {promise} a h = record {
  refused = λ e p. cc;
  done = λ b p. subst (λ x. promise x t) (ok-injective a b p) h;
}

pub Effect-err :
    {A : Type 0} {s : State} {promise : A → State → Type 0} (e : Error)
    → Effect s promise (err e, s)
Effect-err e = record { refused = λ e' p. refl; done = λ a p. cc }

-- A refused reservation, too, leaves the state as it was.
pub Effect-refused :
    {A : Type 0} {s : State} {promise : A → State → Type 0} (e : Error) (b : Bool) (delta : ℕ)
    → (reserve_if b delta s.ledger).granted ≡ false
    → Effect s promise (err e, record s { ledger = (reserve_if b delta s.ledger).ledger })
Effect-refused {s} e b delta no_room = record {
  refused = λ e' p. ap (λ l. record s { ledger = l }) (reserve_if-refused b delta s.ledger no_room);
  done = λ a p. cc;
}
