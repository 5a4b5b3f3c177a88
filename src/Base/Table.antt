-- ===== src/Base/Table.antt =====
-- A database table as its list of rows under a primary key: the rows are found and updated by the
-- key, which no two rows share, so the first row with the key is the row.
use Prim.Native.Nat.{ℕ, ◌+◌}
use mathlib.Core.Path.{◌≡◌}
use mathlib.Core.Bool.{Bool}
use mathlib.Core.Option
use mathlib.Core.Option.{Option, none, some}
use mathlib.Core.List.{List, [], ◌∷◌}
use native.Mathlib.Omega.{arith}
use doot_backend.Base.Tests.{ltb, ◌==◌, if◌then◌else◌}

module _ {A : Type 0} (id_of : A → ℕ) where
  abbrev pub find : ℕ → List A → Option A
  find k [] = none
  find k (x ∷ xs) = if id_of x == k then some x else find k xs

  abbrev pub update : ℕ → (A → A) → List A → List A
  update k f [] = []
  update k f (x ∷ xs) = if id_of x == k then f x ∷ xs else x ∷ update k f xs

  -- A row that is found has the key.
  pub find-id : (k : ℕ) (xs : List A) (x : A) → find k xs ≡ some x → id_of x ≡ k
  find-id k [] x h = ground arith
  find-id k (y ∷ xs) x h = ground (arith, find-id k xs x)

  -- An update that keeps the keys is seen at its key, and nowhere else.
  pub find-update :
      (j k : ℕ) (f : A → A) (xs : List A)
      → ((x : A) → id_of (f x) ≡ id_of x)
      → find j (update k f xs) ≡ (if j == k then Option.map f (find k xs) else find j xs)
  find-update j k f [] h = ground arith
  find-update j k f (x ∷ xs) h = ground (arith, h x, find-update j k f xs h)

module _ {A : Type 0} (number : A → ℕ) where
  -- The one with the higher number; a tie keeps the first.
  abbrev higher : A → Option A → A
  higher a none = a
  higher a (some b) = if ltb (number a) (number b) then b else a

  -- `findFirst` with a condition, from the highest number down.
  abbrev pub latest_by : (A → Bool) → List A → Option A
  latest_by p [] = none
  latest_by p (x ∷ xs) = let rest = latest_by p xs in if p x then some (higher x rest) else rest

module _ {A : Type 0} where
  -- The sum of a number over the rows.
  abbrev pub total : (A → ℕ) → List A → ℕ
  total w [] = 0
  total w (x ∷ xs) = w x + total w xs

  -- Updating a row trades its old weight for its new one.
  pub total-update :
      (id_of : A → ℕ) (w : A → ℕ) (k : ℕ) (f : A → A) (xs : List A) (x : A)
      → find id_of k xs ≡ some x
      → total w (update id_of k f xs) + w x ≡ total w xs + w (f x)
  total-update id_of w k f [] x h = ground arith
  total-update id_of w k f (y ∷ xs) x h = ground (arith, total-update id_of w k f xs x)
