-- ===== src/Delivery/Trail/Moves.antt =====
-- Moving a delivery, recorded in the log: `transitionStatus` of
-- src/modules/delivery/delivery.repository.ts and src/modules/delivery/delivery-lifecycle.service.ts.
use mathlib.Core.Path.{subst}
use doot_backend.Base.{
  ℕ, ◌≡◌, refl, sym, ◌∙◌, ◌≢◌, ◌⊎◌, inl, inr, Bool, true, false, not, ◌&&◌, ◌||◌, Option, none,
  some, List, [], ◌∷◌, arith, if◌then◌else◌, Bool-cases,
}
use doot_backend.Base.Table.{update, find-update}
use doot_backend.Delivery.{
  DeliveryStatus, same_status, includes, DeliveryRow, find_delivery,
  is_stale_operational_transition,
}
use doot_backend.Delivery.Tables.{DeliveryTables}
use doot_backend.Delivery.Lifecycle.{
  Transition, transition, transition_status, in_statuses, move_found, delivery_id_of, moved_row,
  move_from, moved_event, run_transition, find_delivery_row, move_row, record_event,
}
use doot_backend.Delivery.Trail.{
  may_move, Travels, here, leg, continue, replay, at, IsLogged, needs_otp, is_otp_source, Follows,
  Follows-refl, Follows-trans,
}
use doot_backend.Delivery.Trail.Rules.{
  Advances, >>=-Advances, or_throw-Advances, with_transaction-Advances, if-Advances,
  throw_if-Advances,
}
use doot_backend.Payment.Store.{Store, row_missing, answer, read, or_throw, ◌>>=◌}

pub same_status-eq : (a b : DeliveryStatus) → same_status a b ≡ true → a ≡ b
same_status-eq a b h = ground arith

pub same_status_refl : (a : DeliveryStatus) → same_status a a ≡ true
same_status_refl a = ground arith

-- The tables after a delivery has moved.
abbrev moved_tables : Transition → DeliveryStatus → DeliveryTables → DeliveryTables
moved_tables input from t = record t {
  deliveries =
      update delivery_id_of input.delivery_id (move_from from input.to_status) t.deliveries;
  status_events = moved_event input from ∷ t.status_events;
}

move_from-id : (from to : DeliveryStatus) (d : DeliveryRow) → (move_from from to d).id ≡ d.id
move_from-id from to d = ground arith

continue-moved :
    (from to : DeliveryStatus) → may_move from to ≡ true → continue (some from) to (at from) ≡ at to
unfolding continue
continue-moved from to h = rw (same_status_refl from, h) refl

-- Where the delivery was found in the status that it leaves.
module _ (input : Transition) (t : DeliveryTables) (d : DeliveryRow)
    (found : find_delivery input.delivery_id t.deliveries ≡ some d)
    (allowed : may_move d.status input.to_status ≡ true) where
  -- Each row as it is found after the move.
  row_after :
      (j : ℕ)
      → ((j ≡ input.delivery_id)
          × (find_delivery j (moved_tables input d.status t).deliveries
              ≡ some (moved_row input.to_status d)))
        ⊎ ((j ≢ input.delivery_id)
            × (find_delivery j (moved_tables input d.status t).deliveries
                ≡ find_delivery j t.deliveries))
  row_after j =
      let step =
        find-update delivery_id_of j input.delivery_id (move_from d.status input.to_status)
          t.deliveries (move_from-id d.status input.to_status) in
      ground (arith, step, found, same_status_refl d.status)

  same_row :
      {j : ℕ} {e : DeliveryRow}
      → j ≡ input.delivery_id
      → find_delivery j t.deliveries ≡ some e
      → d ≡ e
  same_row same h = cc (found, h, same)

  row_moved :
      (j : ℕ) (e : DeliveryRow)
      → find_delivery j t.deliveries ≡ some e
      → (e' : DeliveryRow) × (find_delivery j (moved_tables input d.status t).deliveries ≡ some e')
        × Travels e.status e'.status
  row_moved j e h = elim (row_after j) [
    | inl (same, now) ↦
        let own : d ≡ e = same_row same h in
        (moved_row input.to_status d, now, rw (sym own) (leg allowed here))
    | inr (differs, now) ↦ (e, now ∙ h, here)
  ]

  log_at :
      (j : ℕ)
      → j ≡ input.delivery_id
      → replay j t.status_events ≡ at d.status
      → replay j (moved_tables input d.status t).status_events ≡ at input.to_status
  log_at j same h =
      let step = continue-moved d.status input.to_status allowed in ground (arith, h, step)

  log_elsewhere :
      (j : ℕ)
      → j ≢ input.delivery_id
      → replay j (moved_tables input d.status t).status_events ≡ replay j t.status_events
  log_elsewhere j differs = ground arith

  moved-IsLogged : IsLogged t → IsLogged (moved_tables input d.status t)
  moved-IsLogged v = record {
    told = λ j e h. elim (row_after j) [
      | inl (same, now) ↦
          let own : moved_row input.to_status d ≡ e = cc (now, h) in
          rw (sym own) (log_at j same (v.told j d (rw same found)))
      | inr (differs, now) ↦ log_elsewhere j differs ∙ v.told j e (sym now ∙ h)
    ];
    untold = λ j h. elim (row_after j) [
      | inl (same, now) ↦ cc (now, h)
      | inr (differs, now) ↦ log_elsewhere j differs ∙ v.untold j (sym now ∙ h)
    ];
  }

  moved-Follows :
      (is_otp_source input.source || not (needs_otp input.to_status)) ≡ true
      → (s : Store) → s.delivery_tables ≡ t
      → Follows s (record s { delivery_tables = moved_tables input d.status t })
  moved-Follows proper s e = record {
    moved = λ j e' h. row_moved j e' (subst (λ x. find_delivery j x.deliveries ≡ some e') e h);
    logged = λ v. moved-IsLogged (subst IsLogged e v);
    verified = λ v. ground (arith, e, v, proper);
    remembered = λ provider event h. rw (sym e) h;
    placed = λ h. rw (sym e) h;
  }

-- Moving from any of the expected statuses is a move of the diagram.
abbrev pub AllMayMove : List DeliveryStatus → DeliveryStatus → Type 0
AllMayMove [] to = Unit
AllMayMove (from ∷ rest) to = (may_move from to ≡ true) × AllMayMove rest to

AllMayMove-includes :
    (from to : DeliveryStatus) (list : List DeliveryStatus)
    → AllMayMove list to
    → includes list from ≡ true
    → may_move from to ≡ true
AllMayMove-includes from to [] all h = cc h
AllMayMove-includes from to (x ∷ list) all h = elim (Bool-cases (same_status x from)) [
  | inl same ↦ rw (sym (same_status-eq x from same)) (all.0)
  | inr differs ↦ AllMayMove-includes from to list all.1 (ground (arith, h, differs))
]

-- A transition that keeps to the diagram, and that picks up or hands over only on a code.
pub record IsProper (input : Transition) : Type 0 where
  pub all_may_move : AllMayMove input.expected_from_statuses input.to_status
  pub by_otp : (is_otp_source input.source || not (needs_otp input.to_status)) ≡ true

pub in_statuses-inv :
    (list : List DeliveryStatus) (o : Option DeliveryRow) (d : DeliveryRow)
    → in_statuses list o ≡ some d
    → (o ≡ some d) × (includes list d.status ≡ true)
in_statuses-inv list none d h = cc h
in_statuses-inv list (some e) d h = go (includes list e.status) refl h
  where
    go :
        (b : Bool)
        → includes list e.status ≡ b
        → (if b then some e else none) ≡ some d
        → (some e ≡ some d) × (includes list d.status ≡ true)
    go true hit same = let own : e ≡ d = cc same in (same, rw (sym own) hit)
    go false hit same = cc same

found_row-Advances :
    (k : ℕ)
    → Advances
        (do found ← read (find_delivery_row k); row ← or_throw found row_missing; answer (some row))
unfolding find_delivery_row
found_row-Advances k s =
    >>=-Advances (or_throw (find_delivery_row k s) row_missing) (λ row. answer (some row))
      (or_throw-Advances (find_delivery_row k s) row_missing) (λ row t. Follows-refl t) s

move_found-Follows :
    (input : Transition) (s : Store) (d : DeliveryRow)
    → IsProper input
    → find_delivery input.delivery_id s.delivery_tables.deliveries ≡ some d
    → includes input.expected_from_statuses d.status ≡ true
    → Follows s (move_found input (some d) s).1
unfolding move_found find_delivery_row move_row record_event
move_found-Follows input s d v found expected =
    let now = record s { delivery_tables = moved_tables input d.status s.delivery_tables } in
    let allowed =
      AllMayMove-includes d.status input.to_status input.expected_from_statuses v.all_may_move
        expected in
    rw (found, same_status_refl d.status)
      (Follows-trans s now _ (moved-Follows input s.delivery_tables d found allowed v.by_otp s refl)
        (found_row-Advances input.delivery_id now))

run_from :
    (input : Transition) (s : Store)
    → IsProper input
    → (o : Option DeliveryRow)
    → in_statuses input.expected_from_statuses
        (find_delivery input.delivery_id s.delivery_tables.deliveries)
      ≡ o
    → Follows s (move_found input o s).1
unfolding move_found
run_from input s v none h = Follows-refl s
run_from input s v (some d) h =
    let (found, expected) =
      in_statuses-inv input.expected_from_statuses
        (find_delivery input.delivery_id s.delivery_tables.deliveries) d h in
    move_found-Follows input s d v found expected

-- A proper transition moves the delivery along the diagram, with its event, or nothing.
pub run_transition-Advances :
    (input : Transition) → IsProper input → Advances (run_transition input)
unfolding run_transition find_delivery_row
run_transition-Advances input v s =
    run_from input s v
      (in_statuses input.expected_from_statuses
        (find_delivery input.delivery_id s.delivery_tables.deliveries))
      refl

pub transition_status-Advances :
    (input : Transition) → IsProper input → Advances (transition_status input)
unfolding transition_status
transition_status-Advances input v =
    with_transaction-Advances (run_transition input) (run_transition-Advances input v)

-- The service's own checks let a proper transition through, refuse it, or skip it.
pub transition-Advances :
    (guarded : Bool) (current : DeliveryStatus) (input : Transition)
    → IsProper input
    → Advances (transition guarded current input)
unfolding transition
transition-Advances guarded current input v =
    if-Advances (guarded && is_stale_operational_transition current input.to_status) (answer none) _
      Follows-refl
      (throw_if-Advances _ _ _ (
        if-Advances _ (answer none) (transition_status input) Follows-refl
          (transition_status-Advances input v)))
