-- ===== src/Store/Restored.antt =====
-- The restore file (store.py, issue #350): what a record keeps of an alert comes back.
use cap_alerts.Prelude.{String, ◌≡◌, refl, eq_refl, []}
use cap_alerts.Prelude.Lists.{All}
use cap_alerts.Dict
use cap_alerts.Model.{CapAlert}
use cap_alerts.Store.Fields.{
  getattr, record_fields, record_from_alert, alert_from_record, diff_fields, restored_diff_fields,
}

module _ (id provider : String) (a : CapAlert) where
  -- Every persisted field of an alert survives the restore file, and a restored record does not
  -- differ from the alert that it was saved from in any field that a restored record is compared on.
  pub alert_from_record-record_from_alert :
      All
        (λ name.
          getattr (alert_from_record id provider (record_from_alert a)) name ≡ getattr a name)
        record_fields
      × (diff_fields (alert_from_record id provider (record_from_alert a)) a restored_diff_fields
          ≡ [])
  unfolding getattr record_from_alert alert_from_record diff_fields restored_diff_fields Dict.get
  alert_from_record-record_from_alert =
      ((refl, (refl, (refl, (refl, (refl, (refl, (refl, tt))))))), simp eq_refl)
