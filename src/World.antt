-- ===== src/World.antt =====
-- What the services act on: the PostgreSQL tables of migrations/, the NATS subjects that they
-- publish to, the object store and the random source. All reads of a clock during one request,
-- time.Now() and the database's NOW(), give the one instant `now`, in nanoseconds since 1970.
pub mod Rows
pub mod Sql
pub mod Quiet
pub mod Atomic
pub mod Inversion
pub mod Policies
pub mod Tx
pub mod Calm
use esppdv.Base.{ℕ, ℤ, pos, String, Bool, true, false, List, [], Option, none, some}
use esppdv.Text.{Bytes}
use Rows.{
  UnitRow, EmployeeRow, Time, UserRecord, UserUnit, RefreshToken, SpdRecord, ApprovalRow,
  BudgetRecord, DocumentRow, NotificationRow, AuditRow, Message,
}

pub record Tables : Type 0 where
  pub units : List UnitRow
  pub employees : List EmployeeRow
  pub users : List UserRecord
  pub user_units : List UserUnit
  pub refresh_tokens : List RefreshToken
  pub spds : List SpdRecord
  pub approvals : List ApprovalRow
  pub budgets : List BudgetRecord
  pub documents : List DocumentRow
  pub notifications : List NotificationRow
  pub audit_logs : List AuditRow

-- The settings app.current_user_id and app.user_role of the running transaction.
pub record Setting : Type 0 where
  pub current_user_id : ℤ
  pub user_role : String

-- `faults` says for each coming call of an outside service whether it fails, and how; no entry
-- left means that it works. `serial` is the last value given by the id sequence of a table, by the
-- table's name. `rls` says whether the policies of migrations/0002_rls.sql bind the
-- services' database role: PostgreSQL exempts a table's owner.
pub record World : Type 0 where
  pub tables : Tables
  pub serial : String → ℕ
  pub setting : Setting
  pub rls : Bool
  pub faults : List (Option String)
  pub entropy : Bytes
  pub nc : Bool
  pub published : List Message
  pub objects : List (String × Bytes)
  pub now : Time
