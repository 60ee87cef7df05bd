-- ===== src/Export/Dsn/Exporter.antt =====
-- src/export/exporter.cpp: the DSN exporter, which writes the .dat file under a directory or uploads
-- it. The file system and the upload are parameters.
pub mod Delivery
use night_watcher.Base.{
  ℕ, Bool, true, false, not, List, [], ◌∷◌, ◌++◌, if◌then◌else◌, is_empty, Bytes, codes, length,
  Result, ok, err, runtime_error,
}
use night_watcher.Export.Dsn.{Formats, config_of, format_dsn_dat, dsn_file_name}
use night_watcher.Export.Run.{ExportContext, ExportResult}
use night_watcher.Export.TimeUtil.{Libc}

-- A file that was opened, which empties it, and in which a failed write may leave a part of the text;
-- a whole text that a stream took; a whole text that the service confirmed. Whether the bytes of a
-- stream reach the disk when it is closed, the exporter does not see.
pub data Push : Type 0 where
  opened_empty : Bytes → Push
  wrote : Bytes → Bytes → Push
  uploaded : Bytes → Bytes → Bytes → Push

-- How it answers: whether a file opens and takes the text, and the identifier of an upload.
pub record Places : Type 0 where
  pub opens : Bytes → Bool
  pub takes : Bytes → Bytes → Bool
  pub upload : Bytes → Bytes → Bytes → Result Bytes

-- To a file under `outbox`.
unfoldable pub to_outbox : Places → Bytes → Bytes → Bytes → List Push × Result Bytes
to_outbox places outbox name content =
    let path = outbox ++ b'/' ∷ name in
    if not (places.opens path)
    then ([], err (runtime_error (codes "cannot open export file for writing: " ++ path)))
    else if not (places.takes path content)
    then (
      opened_empty path ∷ [],
      err (runtime_error (codes "failed writing export file: " ++ path)),
    )
    else (opened_empty path ∷ wrote path content ∷ [], ok (codes "file://" ++ path))

unfoldable pub after_upload : Bytes → Bytes → Bytes → Result Bytes → List Push × Result Bytes
after_upload folder name content (err e) = ([], err e)
after_upload folder name content (ok id) = (uploaded folder name content ∷ [], ok id)

unfoldable pub to_drive : Places → Bytes → Bytes → Bytes → List Push × Result Bytes
unfolding after_upload
to_drive places folder name content =
    after_upload folder name content (places.upload folder name content)

unfoldable pub send_to : Places → Bytes → Bytes → Bytes → Bytes → List Push × Result Bytes
unfolding to_outbox to_drive
send_to places outbox folder name content =
    if not (is_empty outbox)
    then to_outbox places outbox name content
    else if not (is_empty folder)
    then to_drive places folder name content
    else (
      [],
      err (
          runtime_error (codes "dsn export has no destination: set drive_folder_id or outbox_dir")),
    )

abbrev pub with_id : Bytes → ℕ → List Push × Result Bytes → List Push × Result ExportResult
with_id name rows (pushed, ok id) =
    (pushed, ok (record { file_name = name; remote_id = id; row_count = rows }))
with_id name rows (pushed, err e) = (pushed, err e)

-- A step before anything is sent.
abbrev pub first : {A B : Type 0} → Result A → (A → List Push × Result B) → List Push × Result B
first (ok a) next = next a
first (err e) next = ([], err e)

module _ {D N : Type 0} (fmt : Formats D N) (c : Libc) where
  -- DsnExporter::run.
  unfoldable pub dsn_run : Places → Bytes → ExportContext D → List Push × Result ExportResult
  unfolding format_dsn_dat dsn_file_name config_of send_to
  dsn_run places config_json ctx = first (format_dsn_dat fmt c ctx config_json) (λ content.
      first (dsn_file_name fmt c ctx config_json) (λ name. first (config_of fmt config_json) (λ cfg.
        first (fmt.value_text cfg (codes "outbox_dir") []) (λ outbox.
          let sent = λ (folder : Bytes).
            with_id name (length ctx.readings) (send_to places outbox folder name content) in
          if is_empty outbox
          then first (fmt.value_text cfg (codes "drive_folder_id") []) sent
          else sent []))))
