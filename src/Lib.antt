-- ===== src/Lib.antt =====
-- MarkSolutions: marking of goods for the Kazakhstan marking system (IS MPT). A participant tops up an
-- account, orders marking codes for product cards, prints and applies them, and reports what became of
-- them.
--
-- Parts and files:
-- - Base: operators, lists, tables of rows, texts as lists of UTF-16 code units, and the integers over
--   native numbers.
-- - Store: the rows of packages/db/prisma/schema.prisma and the database `Db` as one record of tables;
--   a service method is an `Action`, from a database to a result or an exception and the database after
--   it. `transaction` is `prisma.$transaction`: an exception undoes every write.
-- - Billing: apps/api/src/billing.service.ts. `apply_on` is `applyOn`, with its loop of three attempts
--   as `attempts 3` (the recursion is on the attempts that are left, so no fuel is chosen). What other
--   processes commit between the reads and before the compare-and-swap of an attempt is an argument,
--   `Rivals`. `topup_on`, `reserve_on`, `release_on` and `settle_on` are `topup`, `reserveOn`,
--   `releaseOn` and `settleOn`; `get_balance` and `ledger` are the two views. Billing.Postings is one
--   posting, Billing.Invariant and Billing.Growth say when the books are in order.
-- - Orders: apps/api/src/order.service.ts and apps/api/src/order/. `create` is `create`, its transaction
--   is `place`, `cancel`, `get` and `list` (in Orders.Listing) are the methods of that name;
--   `active_tariff` is `BillingService.activeTariff`, in Orders.Rows with the rows of an order.
-- - Codes: apps/api/src/code-event.service.ts. `record_event_on` is `recordEventOn`; Codes.Sscc is the
--   generation of SSCC numbers.
-- - Vault: apps/api/src/vault.service.ts. `ingest`, `reveal`, `reveal_one`, `codes_by_order`, `masks`,
--   `reveal_for_export` and `log_export` are the methods of those names; what is encrypted is kept as plain
--   text, as `open` is taken to give back what `seal` was given.
-- - Emission: the part of apps/api/src/outbox-poller.ts that sends orders (`send_to_mpt`, in
--   Emission.Messages) and follows them up (`reconcile_order`). The calls of the marking system are arguments; the one that posts an order
--   also gives the database after it, with what other processes have committed meanwhile. In
--   Emission.Posting that call is the adapter's `create_order`.
-- - Labels: apps/api/src/label.service.ts (`print`, `reprint`, `apply`). Drawing and storing a picture,
--   and reading it, are arguments: the key of a text, and the bytes that were read, which are compared
--   with the Latin-1 bytes of the code's text.
-- - Documents: apps/api/src/document.service.ts (`submit_import`, in Documents.Importing, and
--   `submit_withdrawal`), and in
--   Documents.Deciding the part of the outbox poller that decides documents (`reconcile_import`,
--   `reconcile_withdrawal`, `poll_documents`).
-- - Utilisation: apps/api/src/utilisation.service.ts, and the deadline of the outbox poller
--   (`pollUtilisationDeadlines`) in Utilisation.Deadlines.
-- - Catalog: packages/shared/src/catalog-rules.ts, the GS1 check digit and the string form of a
--   code, with `rawStringOf` of apps/api/src/label.service.ts.
-- - Cards: product cards. Cards.Schema is packages/shared/src/catalog-schema.ts, Cards.Files the check of
--   files of packages/shared/src/catalog-rules.ts with `upload` and `clone` of
--   apps/api/src/files.controller.ts, Cards.Resolving apps/api/src/gtin-resolver.ts, Cards.Moderation
--   apps/api/src/moderation.service.ts (`submit_card`, `approve`, `reject`), and Cards.Registering
--   `processNkt` of the outbox poller.
--   Cards.Creating is `createCard` of apps/api/src/catalog.controller.ts.
-- - Drafting: the drafts of apps/api/src/catalog.controller.ts, a table of their own.
-- - Invoices: apps/api/src/invoice.service.ts (`create`, `confirm`, `kaspi_webhook`); Invoices.Money is
--   packages/shared/src/money.ts and vat.ts.
-- - Mpt: apps/api/src/http-mpt.adapter.ts, the transport to the marking system. A `Line` is the fields of
--   the adapter and the calls that it has made; what the network answers is a function from the number of
--   the call. `request` is `request`, whose loop `rounds` gets as many rounds as the retry limit and two:
--   each repetition takes one from the limit, and the replay after a 401 comes once. An answer whose body
--   breaks off ends the request with the exception of `res.text()`. Mpt.Tokens is
--   the login, Mpt.Calls the methods of the adapter, Mpt.Messages and Mpt.Answers what they send and read, Mpt.Values and
--   Mpt.Canonical JSON values and `sortKeysRecursive`. The keys of objects are names; JavaScript lists
--   keys that are whole numbers first.
-- - Access: apps/api/src/auth.service.ts (`login`) and apps/api/src/guards.ts (`tenant_guard`,
--   `roles_guard`), in the order of apps/api/src/app.module.ts; signing and verifying tokens are arguments.
-- - Settings: apps/api/src/config-validation.ts (`build_config_checks`, `validate_production_config`,
--   `build_app_config`).
-- - Poller: a whole tick of apps/api/src/outbox-poller.ts (`poll`), from the parts in Cards.Registering,
--   Emission, Documents.Deciding and Utilisation; its other files hold what each part does to the ledger.
-- - Running: requests and ticks in any order, with requests served while a tick sends an order.
--   Running.Lifecycle follows one order from its placing to the payment for its codes.
-- - Tests: databases with a few rows, and the theorems at work on them.
--
-- The services share the tables: an order reserves its price in the ledger and leaves a message in the
-- outbox in one transaction, and a cancellation releases the price and closes the message. The poller
-- sends the message, fetches the codes into the vault and, when a report on them is accepted, settles
-- the price and releases the reserve.
--
-- Identifiers, keys and times are numbers; `cuid()` and the sequences are the next number of the
-- database. Amounts of the ledger are integers without bound, as `bigint` is. Counts of a request
-- (places, units, quantity) are natural numbers. An absent or empty string is `none`. Free texts
-- (reasons, comments) and timestamps that nothing reads are left out. A compare-and-swap and the entry
-- that follows it are one step, as they are in a transaction. The calls that run without one
-- (`POST /billing/reserve`, `/settle` and `/release`, and the release of a cancellation) commit them one
-- after the other; what others commit in between is not modelled. The digest that an SSCC starts with is an
-- argument.
--
-- A transaction that is undone gives back the identifiers and numbers that it took, which a sequence of
-- PostgreSQL does not; nothing depends on it. A violated unique index raises the exception and leaves
-- the transaction open, so that the reads of a handler inside it go on.
--
-- An attribute of a card that is a number is its printed form. Errors on fields are kept by the names of
-- the fields, without their texts. The catalogue and the register of GTINs are arguments, as is the
-- number that stands for the text of a payment's reference. An order of invoices that other processes
-- issue meanwhile is an argument of `create`.
--
-- The demonstration mode, the lists for tables of the web client, and the delays between repetitions are
-- left out, as are the two limits of a configuration that are parsed as numbers.
--
-- Not modelled: HTTP controllers, the encryption, the rendering of labels, the web client, the
-- simulator of the marking system, and the scripts and seeds of the database.
pub mod Base
pub mod Store
pub mod Billing
pub mod Codes
pub mod Orders
pub mod Poller
pub mod Running
pub mod Vault
pub mod Emission
pub mod Utilisation
pub mod Invoices
pub mod Labels
pub mod Documents
pub mod Tests
pub mod Cards
pub mod Catalog
pub mod Mpt
pub mod Access
pub mod Settings
pub mod Drafting
