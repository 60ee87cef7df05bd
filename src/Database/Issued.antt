-- ===== src/Database/Issued.antt =====
-- The statements of the records, the accounts and the settings are sound.
use night_watcher.Base.{
  Bool, true, false, Option, none, some, List, [], ◌∷◌, ◌≡◌, refl, Bytes, codes, All, arith,
  Bool-cases, inl, inr,
}
use Prim.Native.String.{String}
use night_watcher.Base.Int.{ℤ}
use night_watcher.Database.{
  code, quoted, named, ◌>>◌, store_result, int_text, sql, or_null, or_now, at_least_one, insert_id,
  affected_rows,
}
use night_watcher.Database.Columns.{remove}
use night_watcher.Database.Tables
use night_watcher.Database.Records
use night_watcher.Database.Readings
use night_watcher.Database.Accounts
use night_watcher.Database.Schema
use night_watcher.Database.Lexer.{sound, tame, is_tame, is_quote, starts_code}
use night_watcher.Database.Dump.{table_names}
use night_watcher.Database.RowTypes.{ExportLog, UserRow}
use night_watcher.Database.Fits.{
  Safe, ret-Safe, tame-int_text, bind-Safe, store_result-Safe, then-Safe, only-Safe, select-Safe,
  selected-Safe,
}
use night_watcher.Database.Composed.{Tame}

pub remove-Safe : (table : String) (id : Bytes) → Tame table → Safe (remove table id)
unfolding remove ◌>>◌ tame is_tame is_quote sound starts_code sql
remove-Safe table id h =
    only-Safe (sql "DELETE FROM " ∷ sql table ∷ sql " WHERE id=" ∷ quoted id ∷ []) (λ _. tt)
      (rw h refl)

pub insert_event-Safe :
    (source level event detail device_id : Bytes)
    → Safe (Records.insert_event source level event detail device_id)
unfolding Records.insert_event or_null ◌>>◌ tame is_tame is_quote sound starts_code sql
insert_event-Safe source level event detail device_id = only-Safe _ (λ _. tt) (ground arith)

pub recent_events-Safe : (limit : ℤ) → Safe (Records.recent_events limit)
unfolding Records.recent_events tame is_tame is_quote sound starts_code sql
recent_events-Safe limit = selected-Safe _ _ (ground (arith, tame-int_text (at_least_one limit)))

pub between-sound :
    (cols source : String) (id from to_ : Bytes) (limit : ℤ)
    → Tame cols
    → Tame source
    → sound (Readings.between_statement cols source id from to_ limit) ≡ true
unfolding Readings.between_statement Readings.bound tame is_tame is_quote sound starts_code sql
between-sound cols source id from to_ limit h k =
    rw (h, k) (ground (arith, tame-int_text (at_least_one limit)))

pub limit-sound : (limit : ℤ) → sound (code (int_text (at_least_one limit)) ∷ []) ≡ true
unfolding at_least_one tame is_tame is_quote sound starts_code sql
limit-sound limit = ground (arith, tame-int_text (at_least_one limit))

pub export_log-Safe : (id : Bytes) (limit : ℤ) → Safe (Records.export_log id limit)
unfolding Records.export_log tame is_tame is_quote sound starts_code sql
export_log-Safe id limit = selected-Safe _ _ (limit-sound limit)

pub insert_export_log-Safe : (r : ExportLog) → Safe (Records.insert_export_log r)
unfolding Records.insert_export_log or_null or_now tame is_tame is_quote sound starts_code sql
insert_export_log-Safe r = only-Safe _ insert_id (ground (arith, tame-int_text r.row_count))

pub delete_readings-Safe : (id ts : Bytes) → Safe (Records.delete_readings_before id ts)
unfolding Records.delete_readings_before tame is_tame is_quote sound starts_code sql
delete_readings-Safe id ts = only-Safe _ affected_rows refl

pub watermark-Safe : (id ts : Bytes) → Safe (Tables.set_export_watermark id ts)
unfolding Tables.set_export_watermark ◌>>◌ tame is_tame is_quote sound starts_code sql
watermark-Safe id ts = only-Safe _ (λ _. tt) refl

pub get_setting-Safe : (name : Bytes) → Safe (Accounts.get_setting name)
unfolding Accounts.get_setting tame is_tame is_quote sound starts_code sql
get_setting-Safe name = then-Safe _ _ refl (λ a.
    bind-Safe (store_result (codes "get_setting: ") a) _
      (store_result-Safe (codes "get_setting: ") a) (λ r. ret-Safe _))

pub set_setting-Safe : (name value : Bytes) → Safe (Accounts.set_setting name value)
unfolding Accounts.set_setting ◌>>◌ tame is_tame is_quote sound starts_code sql
set_setting-Safe name value = only-Safe _ (λ _. tt) refl

pub delete_setting-Safe : (name : Bytes) → Safe (Accounts.delete_setting name)
unfolding Accounts.delete_setting ◌>>◌ tame is_tame is_quote sound starts_code sql
delete_setting-Safe name = only-Safe _ (λ _. tt) refl

pub create_user-Safe :
    (username password_hash role : Bytes) (must : Bool)
    → Safe (Accounts.create_user username password_hash role must)
unfolding Accounts.create_user Accounts.bool_text ◌>>◌ tame is_tame is_quote sound starts_code sql
create_user-Safe username password_hash role true = only-Safe _ (λ _. tt) refl
create_user-Safe username password_hash role false = only-Safe _ (λ _. tt) refl

pub find_user-Safe : (username : Bytes) → Safe (Accounts.find_user username)
unfolding Accounts.find_user tame is_tame is_quote sound starts_code sql
find_user-Safe username = selected-Safe _ _ refl

pub change_found-Safe :
    (username password_hash : Bytes) (must : Bool) (row : Option UserRow)
    → Safe (Accounts.change_found username password_hash must row)
unfolding Accounts.change_found Accounts.bool_text ◌>>◌ tame is_tame is_quote sound starts_code sql
change_found-Safe username password_hash must none = ret-Safe false
change_found-Safe username password_hash true (some row) = only-Safe _ (λ _. true) refl
change_found-Safe username password_hash false (some row) = only-Safe _ (λ _. true) refl

pub delete_user-Safe : (username : Bytes) → Safe (Accounts.delete_user username)
unfolding Accounts.delete_user tame is_tame is_quote sound starts_code sql
delete_user-Safe username = only-Safe _ _ refl

pub create_session-Safe :
    (token : Bytes) (user_id ttl_seconds : ℤ)
    → Safe (Accounts.create_session token user_id ttl_seconds)
unfolding Accounts.create_session ◌>>◌ tame is_tame is_quote sound starts_code sql
create_session-Safe token user_id ttl_seconds =
    only-Safe _ (λ _. tt) (ground (arith, tame-int_text user_id, tame-int_text ttl_seconds))

pub validate_session-Safe : (token : Bytes) → Safe (Accounts.validate_session token)
unfolding Accounts.validate_session tame is_tame is_quote sound starts_code sql
validate_session-Safe token = selected-Safe _ _ refl

pub delete_session-Safe : (token : Bytes) → Safe (Accounts.delete_session token)
unfolding Accounts.delete_session ◌>>◌ tame is_tame is_quote sound starts_code sql
delete_session-Safe token = only-Safe _ (λ _. tt) refl

pub expired-Safe : Safe Accounts.delete_expired_sessions
unfolding Accounts.delete_expired_sessions ◌>>◌ tame is_tame is_quote sound starts_code sql
expired-Safe = only-Safe _ (λ _. tt) refl

pub count_users-Safe : Safe Accounts.count_users
unfolding Accounts.count_users tame is_tame is_quote sound starts_code sql
count_users-Safe = selected-Safe _ _ refl

pub users-Safe : Safe Accounts.users
unfolding Accounts.users tame is_tame is_quote sound starts_code sql
users-Safe = selected-Safe _ _ refl

pub extensions-Safe : Safe Accounts.extensions
unfolding Accounts.extensions tame is_tame is_quote sound starts_code sql
extensions-Safe = selected-Safe _ _ refl

pub find_extension-Safe : (name : Bytes) → Safe (Accounts.find_extension name)
unfolding Accounts.find_extension tame is_tame is_quote sound starts_code sql
find_extension-Safe name = selected-Safe _ _ refl

pub query_recent-Safe :
    (table : Bytes) (limit : ℤ) → tame table ≡ true → Safe (Accounts.query_recent table limit)
unfolding Accounts.query_recent tame is_tame is_quote sound starts_code sql
query_recent-Safe table limit h =
    selected-Safe _ _ (ground (arith, tame-int_text (Accounts.clamped limit)))

pub table_status-Safe :
    (present : List Bytes) (t : Bytes) → tame t ≡ true → Safe (Schema.table_status present t)
unfolding Schema.table_status tame is_tame is_quote sound starts_code sql
table_status-Safe present t h = elim (Bool-cases (Schema.is_present t present)) [
  | inl e ↦ rw e (only-Safe (sql "SELECT COUNT(*) FROM " ∷ named t ∷ []) _ (rw h refl))
  | inr e ↦ rw e (ret-Safe _)
]

pub each_status-Safe :
    (present : List Bytes) (known : List String)
    → All Tame known
    → Safe (Schema.each_status present known)
unfolding Schema.each_status tame is_tame is_quote sound starts_code sql
each_status-Safe present [] h = ret-Safe []
each_status-Safe present (t ∷ known) h =
    bind-Safe _ _ (table_status-Safe present (codes t) h.0)
      (λ tc. bind-Safe _ _ (each_status-Safe present known h.1) (λ others. ret-Safe _))

known-Tame : All Tame Schema.k_known
unfolding Schema.each_status tame is_tame is_quote sound starts_code sql
known-Tame = (
  refl,
  (refl, (refl, (refl, (refl, (refl, (refl, (refl, (refl, (refl, (refl, (refl, tt))))))))))),
)

pub schema_status-Safe : Safe Schema.schema_status
unfolding Schema.schema_status tame is_tame is_quote sound starts_code sql
schema_status-Safe =
    bind-Safe _ _ (select-Safe _ refl)
      (λ res. each_status-Safe (table_names res.rows) Schema.k_known known-Tame)
