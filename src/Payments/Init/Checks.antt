-- ===== src/Payments/Init/Checks.antt =====
-- What the checks of `initPayment` guarantee of a cart that they let through.
use fluid_events.Prelude.{
  >>=-eq-ok, ◌≤◌, ◌==◌, true, false, not, some, List, [], ◌∷◌, ◌≡◌, arith, All, refl, ok, length,
  any,
}
use fluid_events.Prelude.Int.{pos, ◌+ℤ◌, ◌≤ℤ◌, +ℤ_parts, -ℤ_parts}
use fluid_events.Payments.{Key, Time, EventStatus, published, online, Db}
use fluid_events.Payments.Init.{
  CartItem, Line, Prepared, prepare, merge_quantities, find_tickets, check_line, check_lines, total,
  find_active, several_events, is_published,
}

-- A line that may be bought now.
pub record IsSellable (now : Time) (l : Line) : Type 0 where
  pub is_online : l.ticket.sale_mode ≡ online
  pub has_started : (start : Time) → l.ticket.sale_start_date ≡ some start → start ≤ now
  pub has_not_ended : (end : Time) → l.ticket.sale_end_date ≡ some end → now ≤ end
  pub in_order_limit : l.quantity ≤ l.ticket.max_per_order
  pub in_stock : l.ticket.stock_sold +ℤ pos l.quantity ≤ℤ pos l.ticket.stock

check_line-IsSellable : (now : Time) (l : Line) → check_line now l ≡ ok tt → IsSellable now l
unfolding check_line
check_line-IsSellable now l h = record {
  is_online = ground arith;
  has_started = λ start e. ground arith;
  has_not_ended = λ end e. ground arith;
  in_order_limit = ground arith;
  in_stock = ground (
    arith,
    +ℤ_parts l.ticket.stock_sold (pos l.quantity),
    -ℤ_parts (pos l.ticket.stock) l.ticket.stock_sold,
  );
}

pub check_lines-IsSellable :
    (now : Time) (ls : List Line) → check_lines now ls ≡ ok tt → All (IsSellable now) ls
unfolding check_lines
check_lines-IsSellable now [] h = tt
check_lines-IsSellable now (l ∷ ls) h =
    let (u, here, later) = >>=-eq-ok (check_line now l) (λ _. check_lines now ls) h in
    (check_line-IsSellable now l here, check_lines-IsSellable now ls later)

any-not_active :
    (ls : List Line)
    → any (λ l. not l.ticket.is_active) ls ≡ false
    → All (λ l. l.ticket.is_active ≡ true) ls
any-not_active [] h = tt
any-not_active (l ∷ ls) h = (ground arith, any-not_active ls (ground arith))

same_event :
    (event : Key) (ls : List Line)
    → any (λ k. not (k.ticket.event_id == event)) ls ≡ false
    → All (λ k. k.ticket.event_id ≡ event) ls
same_event event [] h = tt
same_event event (l ∷ ls) h = (ground arith, same_event event ls (ground arith))

abbrev head_event : List Line → Key
head_event [] = 0
head_event (l ∷ ls) = l.ticket.event_id

several-same_event :
    (ls : List Line) → several_events ls ≡ false → All (λ k. k.ticket.event_id ≡ head_event ls) ls
several-same_event [] h = tt
several-same_event (l ∷ ls) h = (refl, same_event l.ticket.event_id ls h)

-- A cart that may be paid for.
pub record IsPayable (now : Time) (items : List CartItem) (db : Db) (p : Prepared) : Type 0 where
  pub lines_found : p.lines ≡ find_tickets db.tickets (merge_quantities items)
  pub all_found : length p.lines ≡ length (merge_quantities items)
  pub active : All (λ l. l.ticket.is_active ≡ true) p.lines
  pub event_id : Key
  pub one_event : All (λ l. l.ticket.event_id ≡ event_id) p.lines
  pub event_found : db.events event_id ≡ some p.event
  pub is_open : p.event.status ≡ published
  pub sellable : All (IsSellable now) p.lines
  pub config_found : find_active p.event.id db.configs ≡ some p.config
  pub amount : p.total_amount ≡ total p.lines

is_published-eq-true : (s : EventStatus) → not (is_published s) ≡ false → s ≡ published
is_published-eq-true published h = refl
is_published-eq-true _ h = cc

-- What passes the checks of `initPayment` may be paid for: every ticket of the cart exists, is on
-- sale now, in the quantity asked for, within its limit and its stock; they are of one published
-- event, whose active provider is the one chosen; the amount is the sum of prices by quantities.
pub prepare-IsPayable :
    (now : Time) (items : List CartItem) (db : Db) (p : Prepared)
    → prepare now items db ≡ ok p
    → IsPayable now items db p
unfolding prepare
prepare-IsPayable now items db p h = record {
  lines_found = ground arith;
  all_found = ground arith;
  active = any-not_active p.lines (ground arith);
  event_id = head_event p.lines;
  one_event = several-same_event p.lines (ground arith);
  event_found = ground arith;
  is_open = is_published-eq-true p.event.status (ground arith);
  sellable = check_lines-IsSellable now p.lines (ground arith);
  config_found = ground arith;
  amount = ground arith;
}
