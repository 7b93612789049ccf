-- ===== src/Examples/Team.antt =====
-- The theorems on events and their agents: two managers, one of whom has a concert with an agent.
use fluid_events.Prelude.{
  ◌+◌, ◌≤◌, true, none, some, [], ◌∷◌, ◌≡◌, inl, refl, arith, keep, length, thrown, ErrorCode,
}
use fluid_events.Access.{
  ticketed_guest, ticketed_account, manager, client, free, User, ManagedEvent, AccessDb,
  resoudre_evenement_du_manager, vend_des_billets, limites_du_plan, plafond_scanners,
  changer_regime_acces, set_mode,
}
use fluid_events.Access.Ownership.{HasBuyers, changer_regime_acces-HasBuyers}
use fluid_events.Access.Staff.{
  of_event, as_scanner, invited, new_agent, get_my_event_or_throw, assert_plafond_scanners, invite,
  promote, remove,
}
use fluid_events.Access.Staff.Outcome.{invite_bounded}
use fluid_events.Access.Staff.Isolation.{
  inviting, removing, run_staff, Unreached, run_staff-Unreached,
}
use fluid_events.Access.Staff.Promotion.{remove-promote}

abbrev alice : User
alice = record {
  id = 1;
  email = 11;
  role = manager;
  previous_role = none;
  is_active = true;
  plan = free;
}

abbrev carol : User
carol = record alice { id = 3; email = 13; role = client }

abbrev concert : ManagedEvent
concert = record { id = 5; manager_id = 1; access_mode = ticketed_account; max_scanners = none }

abbrev pub house : AccessDb
house = record {
  events = concert ∷ record concert { id = 6; manager_id = 2 } ∷ [];
  users = carol ∷ alice ∷ [];
  agents = new_agent 20 6 9 ∷ [];
  paid_orders = λ e. 4;
  next_id = 30;
}

-- Another manager's event is not there.
not_his : resoudre_evenement_du_manager 1 (some 6) house.events ≡ thrown ErrorCode.event_not_found
unfolding resoudre_evenement_du_manager
not_his = refl

abbrev has_buyers : HasBuyers house 5
unfolding vend_des_billets
has_buyers = record { event = concert; is_there = refl; sells = refl; is_paid = omega arith }

changer_regime_acces-HasBuyers_example :
    HasBuyers (record house { events = set_mode 5 ticketed_guest house.events }) 5
unfolding changer_regime_acces vend_des_billets
changer_regime_acces-HasBuyers_example =
    changer_regime_acces-HasBuyers 5 ticketed_guest house
      (record house { events = set_mode 5 ticketed_guest house.events }) refl 5 has_buyers

abbrev after_invite : AccessDb
after_invite = record house {
  users = invited 30 14 ∷ house.users;
  agents = new_agent 31 5 30 ∷ house.agents;
  next_id = 32;
}

abbrev after_promote : AccessDb
after_promote = record house {
  users = as_scanner carol ∷ alice ∷ [];
  agents = new_agent 30 5 3 ∷ house.agents;
  next_id = 31;
}

invite_bounded_example :
    (length (keep (of_event 5) after_invite.agents) ≡ length (keep (of_event 5) house.agents) + 1)
    × (length (keep (of_event 5) after_invite.agents) ≤ 3)
unfolding invite get_my_event_or_throw resoudre_evenement_du_manager assert_plafond_scanners
    plafond_scanners limites_du_plan
invite_bounded_example = invite_bounded 1 14 (some 5) house 31 after_invite (inl refl) 5 3 refl refl

run_staff-Unreached_example :
    Unreached 6 house (run_staff ((1, inviting 14 (some 6)) ∷ (1, removing 20 none) ∷ []) house)
run_staff-Unreached_example =
    run_staff-Unreached 6 ((1, inviting 14 (some 6)) ∷ (1, removing 20 none) ∷ []) house
      ((λ e. cc), ((λ e. cc), tt))

remove-promote_example : (house.users ≡ house.users) × (house.agents ≡ house.agents)
unfolding promote remove get_my_event_or_throw resoudre_evenement_du_manager assert_plafond_scanners
    plafond_scanners limites_du_plan
remove-promote_example =
    remove-promote 1 13 none (some 5) house 30 30 after_promote
      (record after_promote { users = house.users; agents = house.agents })
      (record { by_id = λ email u e. ground arith; no_role = λ email u e c. ground arith }) refl
      refl
