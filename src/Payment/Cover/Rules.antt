-- ===== src/Payment/Cover/Rules.antt =====
-- The invariant through the ways of joining calls.
use mathlib.Core.Path.{subst}
use doot_backend.Base.{◌≡◌, sym, Bool, true, false, Option, none, some}
use doot_backend.Payment.Store.{
  Store, Failure, Result, ok, err, Db, read, or_throw, catching, with_transaction, ◌>>=◌, ◌>>◌,
  throw_if,
}
use doot_backend.Payment.Cover.{IsValid}

-- A call keeps the invariant, whatever it answers.
abbrev pub Keeps : {A : Type 0} → Db A → Type 0
Keeps m = (s : Store) → IsValid s → IsValid (m s).1

module _ {A B : Type 0} where
  bind_from :
      (f : A → Db B)
      → ((a : A) → Keeps (f a))
      → (x : Result A × Store) → IsValid x.1
      → IsValid
          (let (r, t) = x in
            elim r as (λ _. Result B × Store) [ ok a ↦ f a t | err e ↦ (err e, t) ]).1
  bind_from f hf (ok a, t) w = hf a t w
  bind_from f hf (err e, t) w = w

  -- A bind at one store.
  pub bind-IsValid :
      (m : Db A) (f : A → Db B) (s : Store)
      → IsValid (m s).1
      → ((a : A) → Keeps (f a))
      → IsValid ((m >>= f) s).1
  bind-IsValid m f s v hf = bind_from f hf (m s) v

  -- A bind at one store, by what its first part answers.
  pub bind_ok-IsValid :
      (m : Db A) (f : A → Db B) (s t : Store) (a : A)
      → m s ≡ (ok a, t)
      → IsValid (f a t).1
      → IsValid ((m >>= f) s).1
  bind_ok-IsValid m f s t a e h =
      subst
        (λ x.
          IsValid
            (let (r, u) = x in
              elim r as (λ _. Result B × Store) [ ok b ↦ f b u | err e' ↦ (err e', u) ]).1)
        (sym e) h

  pub >>=-Keeps : (m : Db A) (f : A → Db B) → Keeps m → ((a : A) → Keeps (f a)) → Keeps (m >>= f)
  >>=-Keeps m f hm hf s v = bind_from f hf (m s) (hm s v)

  pub >>-Keeps : (m : Db A) (k : Db B) → Keeps m → Keeps k → Keeps (m >> k)
  >>-Keeps m k hm hk s v = bind_from (λ _. k) (λ _. hk) (m s) (hm s v)

module _ {A : Type 0} where
  catch_from :
      (f : Failure → Db A)
      → ((e : Failure) → Keeps (f e))
      → (x : Result A × Store) → IsValid x.1
      → IsValid
          (let (r, t) = x in
            elim r as (λ _. Result A × Store) [ ok a ↦ (ok a, t) | err e ↦ f e t ]).1
  catch_from f hf (ok a, t) w = w
  catch_from f hf (err e, t) w = hf e t w

  pub catching-Keeps :
      (m : Db A) (f : Failure → Db A)
      → Keeps m
      → ((e : Failure) → Keeps (f e))
      → Keeps (catching m f)
  catching-Keeps m f hm hf s v = catch_from f hf (m s) (hm s v)

  undo_from :
      (s : Store)
      → IsValid s
      → (x : Result A × Store) → IsValid x.1
      → IsValid
          (let (r, t) = x in
            elim r as (λ _. Result A × Store) [ ok a ↦ (ok a, t) | err e ↦ (err e, s) ]).1
  undo_from s v (ok a, t) w = w
  undo_from s v (err e, t) w = v

  pub with_transaction-Keeps : (m : Db A) → Keeps m → Keeps (with_transaction m)
  with_transaction-Keeps m hm s v = undo_from s v (m s) (hm s v)

  pub or_throw-Keeps : (o : Option A) (e : Failure) → Keeps (or_throw o e)
  or_throw-Keeps none e s v = v
  or_throw-Keeps (some a) e s v = v

-- A guard, and what follows it.
pub throw_if-Keeps :
    {A : Type 0} → (b : Bool) (e : Failure) (k : Db A) → Keeps k → Keeps (throw_if b e >> k)
throw_if-Keeps true e k h s v = v
throw_if-Keeps false e k h s v = h s v

module _ {A B : Type 0} where
  option_from :
      (f : B → Db A) (n : Db A)
      → ((b : B) → Keeps (f b))
      → Keeps n
      → (o : Option B) → Keeps (elim o as (λ _. Db A) [ some b ↦ f b | none ↦ n ])
  option_from f n hf hn (some b) = hf b
  option_from f n hf hn none = hn

  -- A query, and a call for each of its answers.
  pub query-Keeps :
      (q : Store → Option B) (f : B → Db A) (n : Db A)
      → ((b : B) → Keeps (f b))
      → Keeps n
      → Keeps (read q >>= λ o. elim o as (λ _. Db A) [ some b ↦ f b | none ↦ n ])
  query-Keeps q f n hf hn s v = option_from f n hf hn (q s) s v

  -- A query that must find something.
  pub required-Keeps :
      (q : Store → Option B) (e : Failure) (f : B → Db A)
      → ((b : B) → Keeps (f b))
      → Keeps (do found ← read q; b ← or_throw found e; f b)
  required-Keeps q e f hf s v = bind_from f hf (or_throw (q s) e s) (or_throw-Keeps (q s) e s v)

  -- A transaction after a wait, at the store that the wait leaves.
  pub then_transaction-IsValid :
      (wait : Db B) (m : Db A) (s : Store)
      → IsValid (wait s).1
      → (IsValid (wait s).1 → IsValid (m (wait s).1).1)
      → IsValid ((wait >> with_transaction m) s).1
  then_transaction-IsValid wait m s v h = go (wait s) v h
    where
      go :
          (x : Result B × Store)
          → IsValid x.1
          → (IsValid x.1 → IsValid (m x.1).1)
          → IsValid
              (let (r, t) = x in
                elim r as (λ _. Result A × Store) [
                  | ok b ↦ with_transaction m t
                  | err e ↦ (err e, t)
                ]).1
      go (ok b, t) w k = undo_from t w (m t) (k w)
      go (err e, t) w k = w
