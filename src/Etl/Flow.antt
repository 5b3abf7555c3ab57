-- ===== src/Etl/Flow.antt =====
-- migrateApprovals, migrateDocuments and migrateNotifications of tools/etl/main.go. Columns that
-- the tables here leave out are parsed all the same.
use esppdv.Text.{varchar, exceeds}
use esppdv.Base.{
  ◌^◌, ◌-◌, ℤ, pos, negsuc, leb_ℤ, String, Bool, not, ◌&&◌, ◌||◌, Option, none, some, any, str_eq,
  eqb_ℤ,
}
use esppdv.Decimal.{clamped_int}
use esppdv.Exec.{pure, lift, gets, ◌>>=◌}
use esppdv.World.{World}
use esppdv.World.Rows.{Time, ApprovalRow, DocumentRow, NotificationRow}
use esppdv.World.Sql.{M}
use esppdv.Etl.Csv.{File, Row, str}
use esppdv.Etl.Field.{int64_ptr, int64_val, time_ptr}
use esppdv.Etl.Load.{Target, migrate, or_now}
use esppdv.Etl.Money.{when, status_or}

-- The column step is an INT.
abbrev pub is_int32 : ℤ → Bool
is_int32 i = leb_ℤ (negsuc (2 ^ 31 - 1)) i && leb_ℤ i (pos (2 ^ 31 - 1))

abbrev pub is_decision : String → Bool
is_decision s = str_eq s "PENDING" || str_eq s "APPROVED" || str_eq s "REJECTED"

abbrev pub has_spd : ℤ → World → Bool
has_spd id w = any (λ s. eqb_ℤ s.id id) w.tables.spds

abbrev pub approvals : Target ApprovalRow
approvals = record {
  rows = λ t. t.approvals;
  with_rows = λ l t. record t { approvals = l };
  key = λ a. (a.id, pos 0);
  fitted = λ a. a;
  invalid = λ a w.
      when (not (is_int32 a.step)) "value out of range for type integer"
        (when (not (is_decision a.status)) "new row violates check constraint" none);
  refused = λ a w. when (not (has_spd a.spd_id w)) "violates foreign key constraint" none;
}

abbrev pub documents : Target DocumentRow
documents = record {
  rows = λ t. t.documents;
  with_rows = λ l t. record t { documents = l };
  key = λ d. (d.id, pos 0);
  fitted = λ d. record d { format = varchar 10 d.format };
  invalid = λ d w. when (exceeds 10 d.format) "value too long for type character varying(10)" none;
  refused = λ d w. when (not (has_spd d.spd_id w)) "violates foreign key constraint" none;
}

abbrev pub notifications : Target NotificationRow
notifications = record {
  rows = λ t. t.notifications;
  with_rows = λ l t. record t { notifications = l };
  key = λ n. (n.id, pos 0);
  fitted = λ n. n;
  invalid = λ n w. none;
  refused = λ n w. none;
}

module _ (parse : String → String → Option Time) where
  -- COALESCE($3, 1) finds a step that is never NULL.
  unfoldable pub approval_of : Row → M ApprovalRow
  approval_of row = do
    id ← lift (int64_val row "id")
    spd_id ← lift (int64_val row "spd_id")
    approver_id ← lift (int64_ptr row "approver_id")
    decided_by ← lift (int64_ptr row "decided_by")
    decided_at ← lift (time_ptr parse row "decided_at")
    created_at ← lift (time_ptr parse row "created_at")
    updated_at ← lift (time_ptr parse row "updated_at")
    now ← gets (λ w. w.now)
    pure (record {
      id = id;
      spd_id = spd_id;
      step = clamped_int (str row "step");
      approver_id = approver_id;
      status = status_or "PENDING" (str row "status");
      comment = some (str row "comment");
      decided_by = decided_by;
      decided_at = decided_at;
      created_at = or_now created_at now;
      updated_at = or_now updated_at now;
    })

  -- migrateApprovals
  unfoldable pub migrate_approvals : File → Bool → M (Unit {0})
  migrate_approvals file dry = migrate approvals approval_of file dry

  unfoldable pub document_of : Row → M DocumentRow
  document_of row = do
    id ← lift (int64_val row "id")
    spd_id ← lift (int64_val row "spd_id")
    requested_by ← lift (int64_val row "requested_by")
    created_at ← lift (time_ptr parse row "created_at")
    now ← gets (λ w. w.now)
    pure (record {
      id = id;
      spd_id = spd_id;
      format = str row "format";
      object_key = str row "object_key";
      requested_by = requested_by;
      created_at = or_now created_at now;
    })

  -- migrateDocuments
  unfoldable pub migrate_documents : File → Bool → M (Unit {0})
  migrate_documents file dry = migrate documents document_of file dry

  unfoldable pub notification_of : Row → M NotificationRow
  notification_of row = do
    id ← lift (int64_val row "id")
    requested_by ← lift (int64_ptr row "requested_by")
    created_at ← lift (time_ptr parse row "created_at")
    sent_at ← lift (time_ptr parse row "sent_at")
    deleted_at ← lift (time_ptr parse row "deleted_at")
    now ← gets (λ w. w.now)
    pure (record {
      id = id;
      channel = str row "channel";
      recipient = str row "recipient";
      subject = str row "subject";
      body = str row "body";
      status = status_or "QUEUED" (str row "status");
      requested_by = requested_by;
      created_at = or_now created_at now;
      sent_at = sent_at;
    })

  -- migrateNotifications
  unfoldable pub migrate_notifications : File → Bool → M (Unit {0})
  migrate_notifications file dry = migrate notifications notification_of file dry
