-- ===== src/Examples/Guests.antt =====
-- The theorems on registrations: a party with one guest, and calls from outside.
use fluid_events.Prelude.{true, none, some, List, [], ◌∷◌, ◌≡◌, refl, arith, keep}
use fluid_events.Prelude.Texts.{codes}
use fluid_events.Payments.{published}
use fluid_events.Access.{rsvp}
use fluid_events.Registrations.{OpenEvent, Registration, DoorDb, CreateRegistration}
use fluid_events.Registrations.Outcome.{DoorCall, registers, manager_marks, strikes, run_doors}
use fluid_events.Registrations.Doors.{AllApart, run_doors-AllApart}
use fluid_events.Registrations.Reach.{of_event, run_doors-Unreached}
use fluid_events.Examples.Team.{house}
use fluid_events.Examples.Forms.{engine, form, body}

abbrev party : OpenEvent
party = record {
  id = 5;
  access_mode = rsvp;
  status = published;
  is_form_active = true;
  fields = form;
}

abbrev guest : Registration
guest = record {
  id = 70;
  event_id = 6;
  first_name = codes "Awa";
  last_name = codes "K";
  email = codes "a@b.c";
  answers = [];
  checked_in_at = none;
}

abbrev list : DoorDb
list = record {
  access = house;
  by_slug = λ s. some party;
  registrations = guest ∷ [];
  next_id = 71;
}

abbrev request : CreateRegistration
request = record {
  first_name = codes "Ben";
  last_name = codes "L";
  email = codes "b@b.c ";
  answers = body;
}

abbrev evening : List DoorCall
evening =
    registers 0 request ∷ registers 0 request ∷ manager_marks 1 70 true 9000 ∷ strikes 1 70 ∷ []

run_doors-AllApart_example : AllApart (run_doors engine (λ t. t) evening list).registrations
run_doors-AllApart_example = run_doors-AllApart engine (λ t. t) evening list (refl, tt)

run_doors-Unreached_example :
    keep (of_event 6) (run_doors engine (λ t. t) evening list).registrations
    ≡ keep (of_event 6) list.registrations
run_doors-Unreached_example =
    run_doors-Unreached engine (λ t. t) 6 evening list
      ((λ e h. ground arith), ((λ e h. ground arith), ((λ h. cc), ((λ h. cc), tt))))
