-- ===== src/Lib.antt =====
-- Fluid Events: the sale of tickets and their control at the entrance.
--
-- The API (apps/api/src) sells the tickets of events and checks them at the door. A client pays
-- for a cart: the checkout reserves places on a counter of each ticket, creates a pending order
-- and asks the event's payment provider for a page or a widget. The provider answers later by a
-- webhook, which pays the order or fails it; a scheduled pass expires the orders that wait for too
-- long. A failed or expired order gives its places back. A paid order has a signed QR token for
-- each place, and a scanner at the entrance consumes each place once, or once a day.
--
-- Payments.antt holds the data of apps/api/prisma/schema.prisma and of packages/types/src/index.ts
-- that these operations read or write. The database is the record Db; a transaction is a function
-- of it, which returns the database as it was when the source rolls back.
--
-- Payments/Stock.antt is apps/api/src/payments/stock.service.ts: decrement_stock_atomic,
-- release_stock_atomic. Payments/Orders.antt is the access to the rows of orders.
--
-- Payments/Init.antt is initPayment and abortFailedInit of
-- apps/api/src/payments/payments.service.ts, on every branch: prepare is what comes before the
-- transaction, place_order the transaction, open_checkout the call of the provider.
--
-- Payments/Webhooks.antt is the idempotency of
-- apps/api/src/payments/webhook-idempotency.service.ts and the end that the handlers share;
-- Payments/Webhooks/Handlers.antt is the five handlers and their routes in
-- apps/api/src/payments/payments.controller.ts. The source repeats the end in each handler; here
-- it is settle, and what precedes it is one function for each provider. Payments/Stripe.antt is
-- the parts of stripe.service.ts that they use.
--
-- Payments/Expiry.antt is apps/api/src/payments/order-expiry.service.ts. Payments/Ledger.antt
-- relates the orders and the counters of places; its children and those of Webhooks and Expiry are
-- about what each operation does to the relation, and Payments/Webhooks/Delivered about the
-- tickets that a payment delivers. Payments/Interleaving.antt is about a webhook and an expiry of
-- the same order at the same time. Payments/Course.antt has the states that an order may go
-- through, and Payments/System.antt sequences of checkouts, webhooks and passes.
--
-- Payments/Qr.antt is the token of apps/api/src/ticket-design/ticket-design.service.ts.
-- Scanner/Decision.antt is apps/api/src/scanner/scan-decision.ts and Scanner/Service.antt is
-- scanner.service.ts beside it. The service loads a context and records a decision later; the two
-- are apart, since other scans run in between, which Scanner/Once.antt is about.
--
-- Access.antt is apps/api/src/common/event-access.service.ts with the tables of plans and access
-- modes in packages/types/src/index.ts, and Access/Staff.antt
-- apps/api/src/scanner/scanner-admin.service.ts; their children are about ownership, limits and
-- the roles of accounts. They have a database of their own, AccessDb, of the columns that they
-- read and write.
--
-- Questionnaire.antt is packages/types/src/questionnaire.ts: the validation of answers and of the
-- definition of a form. A text is a list of UTF-16 code units there.
--
-- Registrations.antt is apps/api/src/registrations/registrations.service.ts: registering, marking
-- who is present, and striking off. It uses the ownership of Access.antt and the validation of
-- Questionnaire.antt.
--
-- Auth.antt is apps/api/src/auth/password-reset.service.ts with validate of
-- apps/api/src/auth/strategies/jwt.strategy.ts, on accounts of their own columns; SHA-256 and
-- bcrypt are parameters.
--
-- Storage is apps/api/src/storage/image-guard.ts, the checks on an image that is sent: the format
-- by its first bytes (detecter_format_image) and the dimensions in its header (lire_dimensions,
-- with lire_png, lire_jpeg and lire_webp). A buffer is its list of bytes. A read past the end is a
-- value, range_error, as is a loop that does not end. The search for a JPEG's frame header is a
-- round (jpeg_round) on a counter, which the length of the buffer bounds, since each round moves
-- the position on. Storage/Upload is validerImage of storage.controller.ts, and Storage/Frame and
-- Storage/Reading are the proofs on the readers.
--
-- Settings is apps/api/src/payments/payment-config.service.ts: a manager saves a provider's keys
-- for one event or for all (enregistrer), switches it on or off (basculer) and removes it
-- (supprimer). The table is the list of its rows. The encryption of the keys is a parameter; the
-- audit and the list that each call returns are left out, as is the inheritance of global
-- configurations by a new event. Settings/Course runs such calls one after another, where a
-- refused call changes nothing.
--
-- Catalogue is apps/api/src/tickets/tickets.service.ts: a manager creates, updates and deletes the
-- kinds of tickets of an event. Catalogue/Days is updateMyEvent of
-- apps/api/src/events/events.service.ts, with the replacement of the days of an event
-- (apply_days_and_policy, whose transaction is replace_days) and the write of its policy; its
-- access mode is changed by the code of Access. An edit returns its answer and what it leaves,
-- since a later step that refuses does not take back an earlier one. Catalogue/Course runs such
-- calls one after another and holds the rule by which an invariant is carried through an edit;
-- Catalogue/Calls and Catalogue/Applied invert calls that go through; the other children are the
-- invariants. Of an event's fields, those that no rule reads are left out, as are createEvent and
-- the lists.
--
-- Utils is packages/utils/src/index.ts: durations, colours and the escaping of HTML, on texts as
-- lists of UTF-16 code units.
--
-- Signin is apps/api/src/auth/auth-orchestrator.service.ts, the ways to sign in, invitations and
-- the verification of a phone number, and apps/api/src/auth/auth.service.ts, the claims of tokens
-- with their ends. The libraries of passwords, tokens and phone numbers are one record of
-- parameters. Signin/Visits runs the calls that write one after another and says what each makes
-- of the accounts; Signin/Roles is about rights, Signin/Sessions about tokens, and Signin/Codes
-- and Signin/Phone about codes.
--
-- Examples and its children are concrete shops, webhooks and scans.
--
-- Identifiers are natural numbers. Amounts are in hundredths of the currency's unit, instants in
-- milliseconds, and both are without a bound, as the source's numbers are far below 2 ^ 53. The
-- counters of places are integers, since the source does not keep them from falling below zero.
-- Two functions have fuel: the search of a JPEG for its frame header, with one round more than the
-- buffer has bytes, and the printing of a number in decimal, with one digit more than the number;
-- every other loop runs over a list. Orders stand in the list of the database in the order of
-- their creation, the newest first, with falling identifiers.
--
-- Parameters, since they are not in the repository: the APIs of the providers, Node's crypto,
-- jsonwebtoken, and Intl; so are Number and Date.parse, whose fallbacks depend on the engine. An
-- exception of theirs is none. A failure of the database itself is not modelled, nor are the raw
-- payload stored with an order, the completion of the client's profile, the rendering of PDF
-- files, logs of the process and the texts of messages. The audit is a list of the entries, and
-- writing it never fails. The rest of the repository (the page builder, notifications, object
-- storage, the web application) is not modelled.
pub mod Prelude
pub mod Payments
pub mod Scanner
pub mod Access
pub mod Questionnaire
pub mod Registrations
pub mod Auth
pub mod Storage
pub mod Settings
pub mod Catalogue
pub mod Utils
pub mod Signin
mod Examples
