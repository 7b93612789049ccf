-- ===== src/Access/Ownership.antt =====
-- Whose event an operation acts on, and what changing the access mode may take away.
use fluid_events.Prelude.{
  ◌<◌, ◌==◌, ltb, if◌then◌else◌, true, false, not, ◌&&◌, Option, none, some, List, [], ◌∷◌, ◌≡◌,
  ◌↔◌, ◌⊎◌, inl, inr, refl, arith, any, length, find-holds, Bool-cases, Option-cases, ok, subst,
  thrown, ErrorCode,
}
use fluid_events.Payments.{Key}
use fluid_events.Access.{
  EventAccessMode, ManagedEvent, AccessDb, find_event, owned_by, if_owned, if_single,
  resoudre_evenement_du_manager, vend_des_billets, changer_regime_acces, set_mode, same_mode,
}

-- There is an event of this identifier that belongs to the manager.
abbrev pub Owns : Key → Key → List ManagedEvent → Type 0
Owns manager_id event_id events =
    any (λ e. e.id == event_id && (e.manager_id == manager_id)) events ≡ true

Owns-find :
    (m id : Key) (es : List ManagedEvent) {e : ManagedEvent}
    → find_event id es ≡ some e
    → e.manager_id ≡ m
    → Owns m id es
Owns-find m id [] h o = cc
Owns-find m id (e' ∷ es) {e} h o = elim (Bool-cases (e'.id == id)) [
  | inl here ↦ ground arith
  | inr later ↦ ground (arith, Owns-find m id es (simp later at h) o)
]

Owns-owned_by :
    (m : Key) (es : List ManagedEvent) {e : ManagedEvent} {rest : List ManagedEvent}
    → owned_by m es ≡ e ∷ rest
    → Owns m e.id es
Owns-owned_by m [] h = cc
Owns-owned_by m (e' ∷ es) {e} {rest} h = elim (Bool-cases (e'.manager_id == m)) [
  | inl his ↦ ground arith
  | inr other ↦ ground (arith, Owns-owned_by m es (simp other at h))
]

if_owned-ok :
    (m : Key) (o : Option ManagedEvent) {id : Key}
    → if_owned m o ≡ ok id
    → (e : ManagedEvent) × (o ≡ some e) × (e.manager_id ≡ m) × (e.id ≡ id)
if_owned-ok m none h = cc
if_owned-ok m (some e) h = (e, refl, ground arith, ground arith)

if_single-ok :
    (es : List ManagedEvent) {id : Key}
    → if_single es ≡ ok id
    → (e : ManagedEvent) × (es ≡ e ∷ []) × (e.id ≡ id)
if_single-ok [] h = cc
if_single-ok (e ∷ []) h = (e, refl, ground arith)
if_single-ok (e ∷ f ∷ es) h = cc

-- An event that is resolved for a manager belongs to the manager; it is the one that was asked for,
-- or, where none was, the manager's only one.
pub resoudre_evenement_du_manager-Owns :
    (m : Key) (asked : Option Key) (es : List ManagedEvent) (id : Key)
    → resoudre_evenement_du_manager m asked es ≡ ok id
    → Owns m id es × ((asked ≡ some id) ⊎ ((asked ≡ none) × (length (owned_by m es) ≡ 1)))
unfolding resoudre_evenement_du_manager
resoudre_evenement_du_manager-Owns m (some asked) es id h =
    let (e, found, his, same) = if_owned-ok m (find_event asked es) h in
    let named : e.id ≡ asked = ground (arith, find-holds (λ f. f.id == asked) es found) in
    (rw (← same, named) (Owns-find m asked es found his), inl (ground arith))
resoudre_evenement_du_manager-Owns m none es id h =
    let (e, single, same) = if_single-ok (owned_by m es) h in
    (rw (← same) (Owns-owned_by m es single), inr (refl, rw single refl))

pub set_mode-find_event :
    (id : Key) (cible : EventAccessMode) (es : List ManagedEvent) (x : Key)
    → find_event x (set_mode id cible es) ≡ elim (find_event x es) [
      | none ↦ none
      | some e ↦ some (if x == id then record e { access_mode = cible } else e)
    ]
unfolding set_mode
set_mode-find_event id cible [] x = refl
set_mode-find_event id cible (e ∷ es) x = ground (arith, set_mode-find_event id cible es x)

-- An event that sells tickets, and of which places are paid.
pub record HasBuyers (db : AccessDb) (x : Key) : Type 0 where
  pub event : ManagedEvent
  pub is_there : find_event x db.events ≡ some event
  pub sells : vend_des_billets (some event.access_mode) ≡ true
  pub is_paid : 0 < db.paid_orders x

changed-HasBuyers :
    (id : Key) (cible : EventAccessMode) (db : AccessDb) (e : ManagedEvent)
    → find_event id db.events ≡ some e
    → (vend_des_billets (some e.access_mode)
        && not (vend_des_billets (some cible))
        && ltb 0 (db.paid_orders id))
      ≡ false
    → (x : Key) → HasBuyers db x
    → HasBuyers (record db { events = set_mode id cible db.events }) x
changed-HasBuyers id cible db e found guard x h = elim (Bool-cases (x == id)) [
  | inl same ↦ record {
    event = record h.event { access_mode = cible };
    is_there = rw (set_mode-find_event id cible db.events x) (ground (arith, h.is_there));
    sells =
        let x_is : x ≡ id = ground arith in
        let one : some h.event ≡ some e = cc (h.is_there, found, x_is) in
        ground (arith, h.sells, h.is_paid);
    is_paid = h.is_paid;
  }
  | inr other ↦ record {
    event = h.event;
    is_there = rw (set_mode-find_event id cible db.events x) (ground (arith, h.is_there));
    sells = h.sells;
    is_paid = h.is_paid;
  }
]

-- A change of access mode that succeeds leaves every event with its sale whose places were paid.
pub changer_regime_acces-HasBuyers :
    (id : Key) (cible : EventAccessMode) (db db' : AccessDb)
    → changer_regime_acces id cible db ≡ ok db'
    → (x : Key) → HasBuyers db x
    → HasBuyers db' x
unfolding changer_regime_acces
changer_regime_acces-HasBuyers id cible db db' h x b =
    elim (Option-cases (find_event id db.events)) [
      | inl missing ↦ absurd (ground arith)
      | inr (e, found) ↦
          elim (Bool-cases (
            vend_des_billets (some e.access_mode)
            && not (vend_des_billets (some cible))
            && ltb 0 (db.paid_orders id))) [
              | inl locked ↦ absurd (ground arith)
              | inr free' ↦ elim (Bool-cases (same_mode e.access_mode cible)) [
                | inl same ↦ let kept : db ≡ db' = ground arith in subst (λ d. HasBuyers d x) kept b
                | inr new' ↦
                    let changed : record db { events = set_mode id cible db.events } ≡ db' =
                      ground arith in
                    subst (λ d. HasBuyers d x) changed
                      (changed-HasBuyers id cible db e found free' x b)
              ]
            ]
    ]

-- It is refused as locked exactly when it would end the sale of an event that has paid orders.
pub changer_regime_acces-locked_iff :
    (id : Key) (cible : EventAccessMode) (db : AccessDb)
    → (changer_regime_acces id cible db ≡ thrown ErrorCode.event_access_mode_locked)
      ↔ (HasBuyers db id × (vend_des_billets (some cible) ≡ false))
unfolding changer_regime_acces
changer_regime_acces-locked_iff id cible db = elim (Option-cases (find_event id db.events)) [
  | inl missing ↦ ((λ h. absurd (ground arith)), (λ (b, c). absurd (ground (arith, b.is_there))))
  | inr (e, found) ↦ (
    (λ h. (
      record { event = e; is_there = found; sells = ground arith; is_paid = ground arith },
      ground arith,
    )),
    (λ (b, c). ground (arith, b.is_there, b.sells, b.is_paid)),
  )
]
