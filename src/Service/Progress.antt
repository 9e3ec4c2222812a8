-- ===== src/Service/Progress.antt =====
-- What may become of an order over a sequence of steps of internal/service/order_state_service.go.
use ec_order_state_service.Prelude.{
  ◌≡◌, refl, String, ◌==◌, eq_iff, true, false, Option, none, some, List, ◌⊎◌, inl, inr, Bool-cases,
}
use ec_order_state_service.Prelude.Dict.{mem}
use ec_order_state_service.Domain.Status.{OrderStatus, waiting_for_shipment, can_transition_to}
use ec_order_state_service.Domain.Lifecycle.{Journey, stay, move, Journey-trans}
use ec_order_state_service.Service.Contract.{
  View, assign, promote_status, promote_all, Meaning, Quiet, Assigns, Promotes, Step, same, placed,
  moved,
}

-- What becomes of one order: it stays away, or comes up in `WaitingForShipment` and goes on from
-- there, or goes on from where it was. It is never lost.
abbrev pub Fate : Option OrderStatus → Option OrderStatus → Type 0
Fate none none = Unit {0}
Fate none (some b) = Journey waiting_for_shipment b
Fate (some a) none = ⊥
Fate (some a) (some b) = Journey a b

pub record Progress {W : Type 0} (m : Meaning W) (w w' : W) : Type 0 where
  pub fate : (id : String) → Fate (m.view w id) (m.view w' id)
  pub stays : m.Valid w → m.Valid w'

Fate-refl : (a : Option OrderStatus) → Fate a a
Fate-refl none = tt
Fate-refl (some a) = stay

Fate-trans : (a b c : Option OrderStatus) → Fate a b → Fate b c → Fate a c
Fate-trans none none none f g = tt
Fate-trans none none (some c) f g = g
Fate-trans none (some b) (some c) f g = Journey-trans f g
Fate-trans (some a) (some b) (some c) f g = Journey-trans f g
Fate-trans none (some b) none f g = elim g [ ]
Fate-trans (some a) none c f g = elim f [ ]
Fate-trans (some a) (some b) none f g = elim g [ ]

Fate-promote_status :
    (new from : OrderStatus)
    → can_transition_to from new ≡ true
    → (a : Option OrderStatus) → Fate a (promote_status new from a)
Fate-promote_status new from good none = tt
Fate-promote_status new from good (some s) = elim (Bool-cases (s == from)) [
  | inl e ↦ rw (e, (eq_iff s from).0 e) (move good stay)
  | inr e ↦ rw e stay
]

Fate-promote_all :
    (ids : List String) (new from : OrderStatus)
    → can_transition_to from new ≡ true
    → (v : View) (j : String) → Fate (v j) (promote_all ids new from v j)
Fate-promote_all ids new from good v j = elim (Bool-cases (mem j ids)) [
  | inl e ↦ rw e (Fate-promote_status new from good (v j))
  | inr e ↦ rw e (Fate-refl (v j))
]

module _ {W : Type 0} {m : Meaning W} where
  pub Progress-trans : {u v w : W} → Progress m u v → Progress m v w → Progress m u w
  Progress-trans {u} {v} {w} p q = record {
    fate = λ id. Fate-trans (m.view u id) (m.view v id) (m.view w id) (p.fate id) (q.fate id);
    stays = λ h. q.stays (p.stays h);
  }

  pub Quiet-Progress : {w w' : W} → Quiet m w w' → Progress m w w'
  Quiet-Progress {w} q = record {
    fate = λ id. rw q.sees (Fate-refl (m.view w id));
    stays = q.stays;
  }

  -- One more order has got a status since `u`, which it may have come to since then.
  pub Progress-Assigns :
      {u w w' : W} {to : OrderStatus} (id : String)
      → Fate (m.view u id) (some to)
      → Assigns m id to w w'
      → Progress m u w
      → Progress m u w'
  Progress-Assigns {u} {w} {to = to} id f a p = record {
    fate = λ j. rw a.sees (go j (Bool-cases (id == j)));
    stays = λ h. a.stays (p.stays h);
  }
    where
      go :
          (j : String)
          → ((id == j) ≡ true) ⊎ ((id == j) ≡ false)
          → Fate (m.view u j) (assign id to (m.view w) j)
      go j (inl e) = rw (e, ← (eq_iff id j).0 e) f
      go j (inr e) = rw e (p.fate j)

  Assigns-Progress :
      {w w' : W} {to : OrderStatus} (id : String)
      → Assigns m id to w w'
      → Fate (m.view w id) (some to)
      → Progress m w w'
  Assigns-Progress {w} id a f =
      Progress-Assigns id f a (Quiet-Progress (record { sees = refl; stays = λ h. h }))

  pub Step-Progress : {w w' : W} → Step m w w' → Progress m w w'
  Step-Progress (same q) = Quiet-Progress q
  Step-Progress (placed id absent a) = Assigns-Progress id a (rw absent stay)
  Step-Progress (moved id from to found good a) = Assigns-Progress id a (rw found (move good stay))

  pub Promotes-Progress :
      {w w' : W} {ids : List String} {new from : OrderStatus}
      → Promotes m ids new from w w'
      → can_transition_to from new ≡ true
      → Progress m w w'
  Promotes-Progress {w} {ids} {new} {from} p good = record {
    fate = λ j. rw p.sees (Fate-promote_all ids new from good (m.view w) j);
    stays = p.stays;
  }
