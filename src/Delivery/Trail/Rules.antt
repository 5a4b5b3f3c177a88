-- ===== src/Delivery/Trail/Rules.antt =====
-- Calls that only move deliveries along the diagram, through the ways of joining calls.
use doot_backend.Base.{◌≡◌, sym, ap, Bool, true, false, if◌then◌else◌, Option, none, some}
use doot_backend.Payment.Store.{
  Store, Failure, Result, ok, err, Db, answer, throw, read, or_throw, catching, with_transaction,
  ◌>>=◌, ◌>>◌, throw_if,
}
use doot_backend.Delivery.Tables.{DeliveryTables}
use doot_backend.Delivery.Lifecycle.{write_tables}
use doot_backend.Delivery.Trail.{here, Follows, Follows-refl, Follows-trans}

-- The store after the call follows the store before it, whatever the call answers.
abbrev pub Advances : {A : Type 0} → Db A → Type 0
Advances m = (s : Store) → Follows s (m s).1

module _ {A B : Type 0} where
  bind_from :
      (s : Store) (f : A → Db B)
      → ((a : A) → Advances (f a))
      → (x : Result A × Store) → Follows s x.1
      → Follows s
          (let (r, t) = x in
            elim r as (λ _. Result B × Store) [ ok a ↦ f a t | err e ↦ (err e, t) ]).1
  bind_from s f hf (ok a, t) w = Follows-trans s t (f a t).1 w (hf a t)
  bind_from s f hf (err e, t) w = w

  pub >>=-Advances :
      (m : Db A) (f : A → Db B) → Advances m → ((a : A) → Advances (f a)) → Advances (m >>= f)
  >>=-Advances m f hm hf s = bind_from s f hf (m s) (hm s)

  pub >>-Advances : (m : Db A) (k : Db B) → Advances m → Advances k → Advances (m >> k)
  >>-Advances m k hm hk s = bind_from s (λ _. k) (λ _. hk) (m s) (hm s)

module _ {A : Type 0} where
  pub answer-Advances : (a : A) → Advances (answer a)
  answer-Advances a = Follows-refl

  pub read-Advances : (q : Store → A) → Advances (read q)
  read-Advances q = Follows-refl

  catch_from :
      (s : Store) (f : Failure → Db A)
      → ((e : Failure) → Advances (f e))
      → (x : Result A × Store) → Follows s x.1
      → Follows s
          (let (r, t) = x in
            elim r as (λ _. Result A × Store) [ ok a ↦ (ok a, t) | err e ↦ f e t ]).1
  catch_from s f hf (ok a, t) w = w
  catch_from s f hf (err e, t) w = Follows-trans s t (f e t).1 w (hf e t)

  pub catching-Advances :
      (m : Db A) (f : Failure → Db A)
      → Advances m
      → ((e : Failure) → Advances (f e))
      → Advances (catching m f)
  catching-Advances m f hm hf s = catch_from s f hf (m s) (hm s)

  undo_from :
      (s : Store) (x : Result A × Store)
      → Follows s x.1
      → Follows s
          (let (r, t) = x in
            elim r as (λ _. Result A × Store) [ ok a ↦ (ok a, t) | err e ↦ (err e, s) ]).1
  undo_from s (ok a, t) w = w
  undo_from s (err e, t) w = Follows-refl s

  pub with_transaction-Advances : (m : Db A) → Advances m → Advances (with_transaction m)
  with_transaction-Advances m hm s = undo_from s (m s) (hm s)

  pub or_throw-Advances : (o : Option A) (e : Failure) → Advances (or_throw o e)
  or_throw-Advances none e s = Follows-refl s
  or_throw-Advances (some a) e s = Follows-refl s

  pub if-Advances :
      (b : Bool) (m k : Db A) → Advances m → Advances k → Advances (if b then m else k)
  if-Advances true m k hm hk = hm
  if-Advances false m k hm hk = hk

  -- A guard, and what follows it.
  pub throw_if-Advances :
      (b : Bool) (e : Failure) (k : Db A) → Advances k → Advances (throw_if b e >> k)
  throw_if-Advances true e k h s = Follows-refl s
  throw_if-Advances false e k h s = h s

  pub Option-Advances :
      {B : Type 0}
      → (f : B → Db A) (n : Db A) → ((b : B) → Advances (f b))
      → Advances n
      → (o : Option B) → Advances (elim o as (λ _. Db A) [ some b ↦ f b | none ↦ n ])
  Option-Advances f n hf hn (some b) = hf b
  Option-Advances f n hf hn none = hn

pub throw-Advances : (A : Type 0) (e : Failure) → Advances (throw {A = A} e)
throw-Advances A e = Follows-refl

pub last_throw_if-Advances : (b : Bool) (e : Failure) → Advances (throw_if b e)
last_throw_if-Advances true e = Follows-refl
last_throw_if-Advances false e = Follows-refl

-- A change beside the deliveries and their log.
beside-Follows :
    (s t : Store)
    → t.delivery_tables.deliveries ≡ s.delivery_tables.deliveries
    → t.delivery_tables.status_events ≡ s.delivery_tables.status_events
    → t.delivery_tables.tracking_points ≡ s.delivery_tables.tracking_points
    → Follows s t
beside-Follows s t rows events points = record {
  moved = λ k d h. (d, rw rows h, here);
  logged = λ v. record {
    told = λ k d h. rw events (v.told k d (rw (sym rows) h));
    untold = λ k h. rw events (v.untold k (rw (sym rows) h));
  };
  verified = λ h. rw events h;
  remembered = λ provider event h. rw points h;
  placed = λ h. rw points h;
}

-- A store with the same tables about deliveries.
pub untouched-Follows : (s t : Store) → t.delivery_tables ≡ s.delivery_tables → Follows s t
untouched-Follows s t e =
    beside-Follows s t (ap (λ x. x.deliveries) e) (ap (λ x. x.status_events) e)
      (ap (λ x. x.tracking_points) e)

-- A write beside the deliveries and their log.
pub write_tables-Advances :
    (f : DeliveryTables → DeliveryTables)
    → ((t : DeliveryTables)
        → ((f t).deliveries ≡ t.deliveries)
          × ((f t).status_events ≡ t.status_events)
          × ((f t).tracking_points ≡ t.tracking_points))
    → Advances (write_tables f)
write_tables-Advances f same s =
    let (rows, events, points) = same s.delivery_tables in
    beside-Follows s (write_tables f s).1 rows events points

pub ruleset advances = (
  >>=-Advances, >>-Advances, catching-Advances, answer-Advances, throw-Advances, read-Advances,
  with_transaction-Advances, or_throw-Advances, if-Advances, last_throw_if-Advances,
  write_tables-Advances,
)
