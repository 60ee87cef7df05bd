-- ===== src/Export/Dsn/Exporter/Delivery.antt =====
-- What a run of the DSN exporter has delivered when it returns or throws.
use night_watcher.Api.Json.{Json}
use night_watcher.Base.{
  List, [], ◌∷◌, ◌++◌, ◌≡◌, ◌⊎◌, inl, inr, refl, true, false, is_empty, if◌then◌else◌, Bytes, codes,
  length, Bool-cases, Result, ok, err,
}
use night_watcher.Export.Dsn.{Formats, config_of, format_dsn_dat, dsn_file_name}
use night_watcher.Export.Dsn.Exporter.{
  Places, Push, opened_empty, wrote, uploaded, to_outbox, after_upload, to_drive, send_to, first,
  with_id, dsn_run,
}
use night_watcher.Export.Run.{ExportContext, ExportResult}
use night_watcher.Export.TimeUtil.{Libc}

-- One whole text, to `outbox` if there is one, else to `folder`.
abbrev pub IsSent : Bytes → Bytes → Bytes → Bytes → List Push → Bytes → Type 0
IsSent outbox folder content name pushed remote_id =
    ((is_empty outbox ≡ false)
      × (pushed ≡ opened_empty (outbox ++ b'/' ∷ name) ∷ wrote (outbox ++ b'/' ∷ name) content ∷ [])
      × (remote_id ≡ codes "file://" ++ (outbox ++ b'/' ∷ name)))
    ⊎ ((is_empty outbox ≡ true)
        × (is_empty folder ≡ false)
        × (pushed ≡ uploaded folder name content ∷ []))

-- Nothing, or a file that was opened and did not take the text.
abbrev pub IsUnsent : List Push → Type 0
IsUnsent pushed = (pushed ≡ []) ⊎ ((path : Bytes) × (pushed ≡ opened_empty path ∷ []))

abbrev Sends : Bytes → Bytes → Bytes → Bytes → List Push × Result Bytes → Type 0
Sends outbox folder content name (pushed, ok id) = IsSent outbox folder content name pushed id
Sends outbox folder content name (pushed, err e) = IsUnsent pushed

to_outbox-Sends :
    (places : Places) (outbox folder name content : Bytes)
    → is_empty outbox ≡ false
    → Sends outbox folder content name (to_outbox places outbox name content)
unfolding to_outbox
to_outbox-Sends places outbox folder name content full =
    elim (Bool-cases (places.opens (outbox ++ b'/' ∷ name))) [
      | inr e ↦ rw e (inl refl)
      | inl e ↦ elim (Bool-cases (places.takes (outbox ++ b'/' ∷ name) content)) [
        | inr f ↦ rw (e, f) (inr (outbox ++ b'/' ∷ name, refl))
        | inl f ↦ rw (e, f) (inl (full, refl, refl))
      ]
    ]

after_upload-Sends :
    (folder name content : Bytes) (r : Result Bytes)
    → is_empty folder ≡ false
    → Sends [] folder content name (after_upload folder name content r)
unfolding after_upload
after_upload-Sends folder name content (ok id) full = inr (refl, full, refl)
after_upload-Sends folder name content (err e) full = inl refl

send_to-Sends :
    (places : Places) (outbox folder name content : Bytes)
    → Sends outbox folder content name (send_to places outbox folder name content)
unfolding send_to to_drive
send_to-Sends places [] [] name content = inl refl
send_to-Sends places [] (c ∷ folder) name content =
    after_upload-Sends (c ∷ folder) name content (places.upload (c ∷ folder) name content) refl
send_to-Sends places (c ∷ outbox) folder name content =
    to_outbox-Sends places (c ∷ outbox) folder name content refl

module _ {D N : Type 0} (fmt : Formats D N) (c : Libc) where
  -- The file of a run: its content and its name, as the formatter gives them, and where the settings
  -- send it; without an outbox the folder is that of the settings.
  pub record IsRun (config_json : Bytes) (ctx : ExportContext D) (pushed : List Push)
      (res : ExportResult) : Type 0 where
    pub content : Bytes
    pub formatted : format_dsn_dat fmt c ctx config_json ≡ ok content
    pub named : dsn_file_name fmt c ctx config_json ≡ ok res.file_name
    pub counted : res.row_count ≡ length ctx.readings
    pub cfg : Json N
    pub parsed : config_of fmt config_json ≡ ok cfg
    pub outbox : Bytes
    pub outbox_set : fmt.value_text cfg (codes "outbox_dir") [] ≡ ok outbox
    pub folder : Bytes
    pub folder_set :
        (is_empty outbox ≡ false) ⊎ (fmt.value_text cfg (codes "drive_folder_id") [] ≡ ok folder)
    pub sent : IsSent outbox folder content res.file_name pushed res.remote_id

  abbrev pub Runs : Bytes → ExportContext D → List Push × Result ExportResult → Type 0
  Runs config_json ctx (pushed, ok res) = IsRun config_json ctx pushed res
  Runs config_json ctx (pushed, err e) = IsUnsent pushed

  -- A step that sends nothing.
  first-Runs :
      (config_json : Bytes) (ctx : ExportContext D) {A : Type 0} (r : Result A)
      (next : A → List Push × Result ExportResult)
      → ((a : A) → r ≡ ok a → Runs config_json ctx (next a))
      → Runs config_json ctx (first r next)
  first-Runs config_json ctx (ok a) next h = h a refl
  first-Runs config_json ctx (err e) next h = inl refl

  -- What the formatter and the settings give for a run.
  module _ (config_json : Bytes) (ctx : ExportContext D) (content name : Bytes)
      (f : format_dsn_dat fmt c ctx config_json ≡ ok content)
      (n : dsn_file_name fmt c ctx config_json ≡ ok name) (cfg : Json N)
      (p : config_of fmt config_json ≡ ok cfg) (outbox : Bytes)
      (o : fmt.value_text cfg (codes "outbox_dir") [] ≡ ok outbox) where
    with_id-Runs :
        (folder : Bytes) (s : List Push × Result Bytes)
        → (is_empty outbox ≡ false) ⊎ (fmt.value_text cfg (codes "drive_folder_id") [] ≡ ok folder)
        → Sends outbox folder content name s
        → Runs config_json ctx (with_id name (length ctx.readings) s)
    with_id-Runs folder (pushed, ok id) h s = record {
      content = content;
      formatted = f;
      named = n;
      counted = refl;
      cfg = cfg;
      parsed = p;
      outbox = outbox;
      outbox_set = o;
      folder = folder;
      folder_set = h;
      sent = s;
    }
    with_id-Runs folder (pushed, err e) h s = s

    sent-Runs :
        (places : Places)
        → Runs config_json ctx (
            if is_empty outbox
            then first (fmt.value_text cfg (codes "drive_folder_id") []) (λ folder.
              with_id name (length ctx.readings) (send_to places outbox folder name content))
            else with_id name (length ctx.readings) (send_to places outbox [] name content))
    sent-Runs places = elim (Bool-cases (is_empty outbox)) [
      | inl e ↦ rw e (
          first-Runs config_json ctx (fmt.value_text cfg (codes "drive_folder_id") []) _
            (λ folder g.
              with_id-Runs folder _ (inr g) (send_to-Sends places outbox folder name content)))
      | inr e ↦ rw e (with_id-Runs [] _ (inl e) (send_to-Sends places outbox [] name content))
    ]

  -- A run of the exporter that returns has handed over one file, with the content and the name that
  -- the formatter gives: to a stream for that name under the outbox of the settings, which took it
  -- whole, or, without an outbox, by an upload to the folder of the settings that the service
  -- confirmed; the run counts its readings. A run that throws has had none taken or confirmed; at
  -- most it has opened one file.
  pub dsn_run-Runs :
      (places : Places) (config_json : Bytes) (ctx : ExportContext D)
      → Runs config_json ctx (dsn_run fmt c places config_json ctx)
  unfolding dsn_run
  dsn_run-Runs places config_json ctx =
      first-Runs config_json ctx (format_dsn_dat fmt c ctx config_json) _ (λ content f.
        first-Runs config_json ctx (dsn_file_name fmt c ctx config_json) _ (λ name n.
          first-Runs config_json ctx (config_of fmt config_json) _ (λ cfg p.
            first-Runs config_json ctx (fmt.value_text cfg (codes "outbox_dir") []) _
              (λ outbox o. sent-Runs config_json ctx content name f n cfg p outbox o places))))
