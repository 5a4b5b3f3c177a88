-- ===== src/Payment/Cover/Reasoning.antt =====
-- The rules of the invariant for the calls that only read, branch, or write elsewhere.
use doot_backend.Base.{Bool, true, false, Option, none, some, if◌then◌else◌}
use doot_backend.Delivery.Tables.{DeliveryTables}
use doot_backend.Delivery.Lifecycle.{write_tables}
use doot_backend.Payment.Store.{Store, Failure, Db, answer, throw, read, throw_if}
use doot_backend.Payment.Cover.Rules.{
  Keeps, >>=-Keeps, >>-Keeps, catching-Keeps, with_transaction-Keeps, or_throw-Keeps,
}

module _ {A : Type 0} where
  pub answer-Keeps : (a : A) → Keeps (answer a)
  answer-Keeps a s v = v

  pub read-Keeps : (q : Store → A) → Keeps (read q)
  read-Keeps q s v = v

  pub if-Keeps : (b : Bool) (m k : Db A) → Keeps m → Keeps k → Keeps (if b then m else k)
  if-Keeps true m k hm hk = hm
  if-Keeps false m k hm hk = hk

  pub Option-Keeps :
      {B : Type 0}
      → (f : B → Db A) (n : Db A) → ((b : B) → Keeps (f b))
      → Keeps n
      → (o : Option B) → Keeps (elim o as (λ _. Db A) [ some b ↦ f b | none ↦ n ])
  Option-Keeps f n hf hn (some b) = hf b
  Option-Keeps f n hf hn none = hn

pub throw-Keeps : (A : Type 0) (e : Failure) → Keeps (throw {A = A} e)
throw-Keeps A e s v = v

pub last_throw_if-Keeps : (b : Bool) (e : Failure) → Keeps (throw_if b e)
last_throw_if-Keeps true e s v = v
last_throw_if-Keeps false e s v = v

-- The invariant says nothing of the tables about deliveries.
pub write_tables-Keeps : (f : DeliveryTables → DeliveryTables) → Keeps (write_tables f)
write_tables-Keeps f s v = record { sound = v.sound; owned = v.owned }

pub ruleset keeping = (
  >>=-Keeps, >>-Keeps, catching-Keeps, with_transaction-Keeps, or_throw-Keeps, answer-Keeps,
  read-Keeps, if-Keeps, throw-Keeps, last_throw_if-Keeps, write_tables-Keeps,
)
