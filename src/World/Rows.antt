-- ===== src/World/Rows.antt =====
-- The rows of the tables of migrations/0001_init.sql and 0003, by the columns that the services
-- read, and the messages on the NATS subjects. `metadata` is the
-- JSON of the message, by its value. `deleted` is `deleted_at IS NOT NULL`.
use esppdv.Base.{ℤ, String, Bool, Option}
use esppdv.Text.{Bytes}

abbrev pub Time : Type 0
Time = ℤ

abbrev pub Duration : Type 0
Duration = ℤ

pub record UnitRow : Type 0 where
  pub id : ℤ
  pub code : String
  pub name : String
  pub deleted : Bool

pub record EmployeeRow : Type 0 where
  pub id : ℤ
  pub nip : String
  pub name : String
  pub unit_id : Option ℤ
  pub deleted : Bool

pub record UserRecord : Type 0 where
  pub id : ℤ
  pub username : String
  pub role : String
  pub password_hash : String
  pub is_active : Bool
  pub mfa_enabled : Bool
  pub mfa_secret_enc : Option Bytes
  pub mfa_enrolled_at : Option Time
  pub deleted : Bool

pub record UserUnit : Type 0 where
  pub user_id : ℤ
  pub unit_id : ℤ

pub record RefreshToken : Type 0 where
  pub id : String
  pub user_id : ℤ
  pub expires_at : Time
  pub revoked_at : Option Time
  pub replaced_by : Option String

pub record SpdRecord : Type 0 where
  pub id : ℤ
  pub nomor_surat : String
  pub employee_id : Option ℤ
  pub unit_id : ℤ
  pub purpose_enc : Option Bytes
  pub total_cost_enc : Option Bytes
  pub status : String
  pub created_by : ℤ
  pub created_at : Time
  pub updated_at : Time
  pub deleted : Bool

pub record ApprovalRow : Type 0 where
  pub id : ℤ
  pub spd_id : ℤ
  pub step : ℤ
  pub approver_id : Option ℤ
  pub status : String
  pub comment : Option String
  pub decided_by : Option ℤ
  pub decided_at : Option Time
  pub created_at : Time
  pub updated_at : Time

pub record BudgetRecord : Type 0 where
  pub id : ℤ
  pub unit_id : ℤ
  pub amount_enc : Option Bytes
  pub source_enc : Option Bytes
  pub description : String
  pub created_by : ℤ
  pub created_at : Time
  pub updated_at : Time
  pub deleted : Bool

pub record DocumentRow : Type 0 where
  pub id : ℤ
  pub spd_id : ℤ
  pub format : String
  pub object_key : String
  pub requested_by : ℤ
  pub created_at : Time

pub record NotificationRow : Type 0 where
  pub id : ℤ
  pub channel : String
  pub recipient : String
  pub subject : String
  pub body : String
  pub status : String
  pub requested_by : Option ℤ
  pub created_at : Time
  pub sent_at : Option Time

pub record AuditEvent : Type 0 where
  pub action : String
  pub resource_type : String
  pub resource_id : ℤ
  pub user_id : ℤ
  pub role : String
  pub ip_address : String
  pub user_agent : String
  pub timestamp : Time

pub record AuditRow : Type 0 where
  pub id : ℤ
  pub action : String
  pub resource_type : String
  pub resource_id : Option ℤ
  pub user_id : ℤ
  pub role : String
  pub ip_address : Option String
  pub user_agent : Option String
  pub metadata : AuditEvent
  pub timestamp : Time

pub record SpdSubmittedEvent : Type 0 where
  pub spd_id : ℤ
  pub unit_id : ℤ
  pub user_id : ℤ
  pub submitted_at : Time

pub record Job : Type 0 where
  pub job_id : String
  pub spd_id : ℤ
  pub format : String
  pub requested_by : ℤ
  pub role : String
  pub requested_at : Time

pub record NotificationEvent : Type 0 where
  pub id : String
  pub channel : String
  pub recipient : String
  pub subject : String
  pub body : String
  pub requested_by : ℤ
  pub role : String
  pub requested_at : Time

-- The subjects "spd.submitted", "audit.log", "document.generate", "document.generated" and
-- "notification.send", with the value that the JSON stands for.
pub data Message : Type 0 where
  spd_submitted : SpdSubmittedEvent → Message
  audit_log : AuditEvent → Message
  document_generate : Job → Message
  document_generated : ℤ → ℤ → Message
  notification_send : NotificationEvent → Message
