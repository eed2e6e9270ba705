-- ===== src/Poller.antt =====
-- A tick of the outbox poller (`poll` of apps/api/src/outbox-poller.ts): the parts that the other
-- modules define, one after another. An error in one part ends the tick, and is not thrown on.
pub mod Writes
pub mod Orders
pub mod Documents
pub mod Registering
pub mod Reports
pub mod Books
use mark_solutions.Base.{ℕ, Bool, Option}
use mark_solutions.Store.{Order, ReportStatus, Db, Action, swallow, ◌>>=◌, ◌>>◌}
use mark_solutions.Cards.Registering.{Nkt, poll_nkt}
use mark_solutions.Emission.{Reply, Mpt, poll_mpt_orders}
use mark_solutions.Documents.Deciding.{Decision, poll_documents}
use mark_solutions.Utilisation.{poll_reports}
use mark_solutions.Utilisation.Deadlines.{poll_utilisation_deadlines}

-- The settings that the poller reads from the environment on each tick.
pub record Timeouts : Type 0 where
  pub nkt : ℕ
  pub mpt_order : ℕ
  pub document : ℕ
  pub deadline_days : ℕ
  pub require_gs1_verified : Bool

-- The outer systems, as they answer. `create_order` comes with what other processes commit while it
-- runs.
pub record Systems : Type 0 where
  pub nkt : Nkt
  pub create_order : Order → ℕ → Db → Reply × Db
  pub mpt : Mpt
  pub get_document : ℕ → Decision
  pub get_utilisation : ℕ → Option ReportStatus

-- The clock is read once in a tick.
unfoldable pub poll : ℕ → Timeouts → Systems → Action Unit
poll now timeouts systems = swallow (do
  poll_nkt now timeouts.nkt timeouts.require_gs1_verified systems.nkt
  poll_mpt_orders now timeouts.mpt_order systems.create_order systems.mpt
  poll_documents now timeouts.document systems.get_document
  poll_reports systems.get_utilisation
  poll_utilisation_deadlines timeouts.deadline_days now)
