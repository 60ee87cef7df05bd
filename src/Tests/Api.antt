-- ===== src/Tests/Api.antt =====
-- The API's decisions on concrete requests and settings.
use night_watcher.Base.{
  ℕ, true, false, Option, none, some, [], ◌≡◌, refl, inl, inr, List, ◌↔◌, ◌⊎◌, Bytes, codes, Result,
  ok, err, runtime_error, bytes_eq, ◌∷◌, zero, suc, ◌%◌, ◌<◌, arith, replicate, length, ap, ◌≢◌,
  Exception, All, ◌&◌,
}
use night_watcher.Base.Int.{ℤ, pos}
use night_watcher.Api.Json.{
  Json, number, string, object, Members, no_members, member, key_lt, mask_config_json,
  merge_config_json, members_of, lookup,
}
use night_watcher.Api.SecretNames.{IsSecretName}
use night_watcher.Api.Masking.{
  merge_config_json-mask, mask_config_json-AgreePublicly, agree_end, agree_member, agree_same,
  agree_inside, agree_secret, IsSorted,
}
use night_watcher.Api.Access.{Request, granted, require_auth, pre_routing, is_gap}
use night_watcher.Api.Cookies.{Cookie, IsCookie}
use night_watcher.Tests.Samples.{lacks-Free}
use night_watcher.Api.Granted.{require_auth_iff, pre_routing_iff}
use night_watcher.Api.Carried.{IsAuthorized, IsInApi, IsPublic}
use night_watcher.Auth.{
  k_iterations, k_salt_len, k_hash_len, pbkdf2, encoded_of, hash_password, random_hex, to_hex,
}
use night_watcher.Auth.Verify.{Fills}
use night_watcher.Api.Users.{login_found, session_ttl, remove_found}
use night_watcher.Api.Logins.{login_found-hash_password, remove_found-last_admin}
use night_watcher.Api.Names.{sends, fails, extension_data, dsn_download_name}
use night_watcher.Api.Served.{extension_data-Meant, dsn_download_name-IsQuotable, IsQuotable}
use night_watcher.Api.Sensors.{
  Getters, contains, given, sensor_fields_from_json, members_from_json, described, polled,
  with_address, affects_polling, patch_reloads, asks_reload,
}
use night_watcher.Api.Reloads.{patch_reloads-accepted}
use night_watcher.Api.Settings.{Listening, put_settings}
use night_watcher.Api.Stored.{IsValidWrite, put_settings-IsValidWrite}
use night_watcher.Database.{
  Db, ret, throw, ◌>>◌, text, until_nul, run, accepted, ResultSet, all_rows,
}
use night_watcher.Database.Accounts.{create_session}
use night_watcher.Database.RoundTrip.{answer_next}
use night_watcher.Database.Calls.{Every}
use night_watcher.Database.Fields.{SensorFields}
use night_watcher.Database.Lexer.{tokens, meant}
use night_watcher.Database.Rows.{user_from_row}
use night_watcher.Database.RowTypes.{SessionInfo, UserRow}
use night_watcher.Tests.Database.{escape, escape-Escapes}

-- {"API_key": <key>, "auth": {"Token": <token>}, "site": "x"}
abbrev pub settings_with : Bytes → Bytes → Members ℕ
settings_with key token = member (codes "API_key") (string key) (
    member (codes "auth") (object (member (codes "Token") (string token) no_members))
      (member (codes "site") (string (codes "x")) no_members))

merge_config_json-mask_example :
    merge_config_json
      (object (settings_with (codes "k1") (codes "t1")))
      (mask_config_json (object (settings_with (codes "k1") (codes "t1"))))
    ≡ object (settings_with (codes "k1") (codes "t1"))
unfolding IsSorted key_lt
merge_config_json-mask_example =
    merge_config_json-mask (settings_with (codes "k1") (codes "t1"))
      ((refl, (refl, tt)), (tt, ((refl, tt), ((tt, (tt, tt)), (tt, (tt, tt))))))

api_key_IsSecretName : IsSecretName (codes "API_key")
api_key_IsSecretName =
    inl (codes "API_", codes "key", [], refl, (inl refl, (inl refl, (inl refl, tt))))

token_IsSecretName : IsSecretName (codes "Token")
token_IsSecretName = inr (
    inr (
      inr (
        [],
        codes "Token",
        [],
        refl,
        (inr refl, (inl refl, (inl refl, (inl refl, (inl refl, tt))))),
      )))

mask_config_json-AgreePublicly_example :
    mask_config_json (object (settings_with (codes "k1") (codes "t1")))
    ≡ mask_config_json (object (settings_with (codes "k2") (codes "other")))
mask_config_json-AgreePublicly_example =
    mask_config_json-AgreePublicly (settings_with (codes "k1") (codes "t1"))
      (settings_with (codes "k2") (codes "other"))
      (agree_member (agree_secret api_key_IsSecretName refl refl) (
        agree_member
          (agree_inside (agree_member (agree_secret token_IsSecretName refl refl) agree_end))
          (agree_member agree_same agree_end)))

-- A database that knows one session of a viewer.
abbrev one_viewer : Db (Option SessionInfo) → Result (Option SessionInfo)
one_viewer m = ok (some (record { user_id = pos 3; username = codes "ann"; role = codes "viewer" }))

abbrev two_cookies : List Cookie
two_cookies =
    record { name = codes "theme"; value = codes "dark" }
    ∷ record { name = codes "nw_session"; value = codes "abc" }
    ∷ []

two_cookies-IsCookie : All IsCookie two_cookies
unfolding is_gap
two_cookies-IsCookie =
    record {
      name_free = lacks-Free b'=' (codes "theme") refl;
      name_bare = refl;
      value_free = lacks-Free b';' (codes "dark") refl;
    }
    & record {
      name_free = lacks-Free b'=' (codes "nw_session") refl;
      name_bare = refl;
      value_free = lacks-Free b';' (codes "abc") refl;
    }
    & tt

abbrev by_cookie : Request
by_cookie = record {
  path = codes "/api/v1/sensors";
  authorization = [];
  cookie = codes "theme=dark; nw_session=abc";
}

require_auth_iff_example :
    (require_auth one_viewer [] true by_cookie ≡ granted)
    ↔ IsAuthorized one_viewer [] true two_cookies []
require_auth_iff_example =
    require_auth_iff one_viewer [] two_cookies two_cookies-IsCookie (codes "/api/v1/sensors") []
      true

pre_routing_iff_example : (pre_routing one_viewer [] by_cookie ≡ granted) ↔ (
    (¬ IsInApi (codes "/api/v1/sensors"))
    ⊎ (IsPublic (codes "/api/v1/sensors") ⊎ IsAuthorized one_viewer [] false two_cookies []))
pre_routing_iff_example =
    pre_routing_iff one_viewer [] two_cookies two_cookies-IsCookie (codes "/api/v1/sensors") []

extension_data-Meant_example :
    Every
      (λ q. tokens (until_nul (text escape q)) ≡ meant q)
      (extension_data (codes "it's") (pos 10))
extension_data-Meant_example = extension_data-Meant escape (codes "it's") (pos 10) escape-Escapes

abbrev no_json : Bytes → Option (Json ℕ)
no_json s = none

dsn_download_name-IsQuotable_example :
    All IsQuotable
      (dsn_download_name no_json (codes "a\"b\n") (codes "{") [] (codes "2026-07-18 00:00:00"))
dsn_download_name-IsQuotable_example =
    dsn_download_name-IsQuotable no_json (codes "a\"b\n") (codes "{") []
      (codes "2026-07-18 00:00:00")

abbrev string_or_throw : Json ℕ → Result Bytes
string_or_throw (string s) = ok s
string_or_throw _ = err (runtime_error (codes "type must be string"))

abbrev int_or_throw : Json ℕ → Result ℤ
int_or_throw (number n) = ok (pos n)
int_or_throw _ = err (runtime_error (codes "type must be number"))

abbrev number_or_throw : Json ℕ → Result ℕ
number_or_throw (number n) = ok n
number_or_throw _ = err (runtime_error (codes "type must be number"))

abbrev pub getters : Getters ℕ ℕ
getters = record {
  get_string = string_or_throw;
  get_int = int_or_throw;
  get_double = number_or_throw;
}

-- {"poll_interval_s": 60}
abbrev new_interval : Json ℕ
new_interval = object (member (codes "poll_interval_s") (number 60) no_members)

abbrev interval_fields : SensorFields ℕ
interval_fields = record {
  name = none;
  site = none;
  serial_number = none;
  model = none;
  protocol_ver = none;
  feature_ver = none;
  latitude = none;
  longitude = none;
  elevation_m = none;
  timezone = none;
  transport = none;
  address = none;
  poll_interval_s = some (pos 60);
  status = none;
  installed_at = none;
  notes = none;
}

patch_reloads-accepted_example : patch_reloads new_interval (ok (sends tt)) ≡ true
unfolding sensor_fields_from_json members_from_json described polled given with_address
    affects_polling contains lookup members_of bytes_eq
patch_reloads-accepted_example =
    patch_reloads-accepted getters new_interval interval_fields tt refl refl refl refl

-- An edit that moves a sensor with the key `tcp` is stored, and the daemon is not asked to reload.
missed_body : Json ℕ
missed_body = object (member (codes "tcp") (string (codes "10.0.0.9")) no_members)

missed_reload : patch_reloads missed_body (ok (sends tt)) ≡ false
unfolding missed_body patch_reloads lookup bytes_eq contains members_of asks_reload
missed_reload = refl

abbrev listening : Listening
listening = record { bind = codes "127.0.0.1"; port = pos 8080; tls = false }

put_settings-IsValidWrite_example :
    Every IsValidWrite (
      put_settings int_or_throw listening (object (member (codes "port") (number 8443) no_members)))
put_settings-IsValidWrite_example =
    put_settings-IsValidWrite int_or_throw listening
      (object (member (codes "port") (number 8443) no_members))

-- A digest that repeats the length of the password.
abbrev length_hmac : Bytes → Bytes → ℕ → ℕ → Option Bytes
length_hmac pw salt iters outlen = some (replicate outlen (length pw % 256))

abbrev sevens : ℕ → Option Bytes
sevens n = some (replicate n 7)

filled_with : (n b : ℕ) → b < 256 → Fills (some (replicate n b)) n
filled_with zero b lt = (refl, tt)
filled_with (suc n) b lt = let ih = filled_with n b lt in (ap suc ih.0, (lt, ih.1))

abbrev admin_row : UserRow
admin_row = record {
  id = pos 1;
  username = codes "root";
  password_hash = encoded_of (replicate 16 7) (replicate 32 3);
  role = codes "admin";
  must_change_password = false;
  created_at = [];
}

login_found-hash_password_example :
    (salt : Bytes) × (sevens k_salt_len ≡ some salt)
    × ((pbkdf2 length_hmac (codes "xyz") salt k_iterations k_hash_len
          ≡ pbkdf2 length_hmac (codes "abc") salt k_iterations k_hash_len)
        → login_found length_hmac sevens (ok (codes "xyz")) (some admin_row) ≡ (
            create_session (to_hex (replicate 32 7)) (pos 1) session_ttl
            >> ret (sends (to_hex (replicate 32 7), admin_row))))
    × ((pbkdf2 length_hmac (codes "xyz") salt k_iterations k_hash_len
          ≢ pbkdf2 length_hmac (codes "abc") salt k_iterations k_hash_len)
        → (login_found length_hmac sevens (ok (codes "xyz")) (some admin_row)
            ≡ ret (fails 401 (codes "invalid credentials")))
          ⊎ ((e : Exception) × (login_found length_hmac sevens (ok (codes "xyz")) (some admin_row)
                ≡ throw e)))
unfolding hash_password random_hex
login_found-hash_password_example =
    login_found-hash_password length_hmac sevens (codes "abc") (codes "xyz")
      (to_hex (replicate 32 7)) admin_row (filled_with 16 7 (omega arith))
      (λ pw salt. filled_with 32 (length pw % 256) (omega arith)) refl refl

-- The table of users with one admin and one viewer.
abbrev one_admin : ResultSet
one_admin = record {
  fields = [];
  rows =
      (some (codes "1") ∷ some (codes "root") ∷ some [] ∷ some (codes "admin") ∷ [])
      ∷ (some (codes "2") ∷ some (codes "ann") ∷ some [] ∷ some (codes "viewer") ∷ [])
      ∷ [];
}

differ_in_length : codes "viewer" ≢ codes "admin"
differ_in_length e = absurd (omega (arith, ap length e))

remove_found-last_admin_example :
    run escape answer_next
      (remove_found (codes "root") (some admin_row))
      (accepted (some one_admin) [] 0 0 ∷ [])
    ≡ (ok (fails 409 (codes "cannot delete the last admin")), [])
unfolding all_rows user_from_row
remove_found-last_admin_example =
    remove_found-last_admin escape (codes "root") admin_row one_admin [] refl
      (inl (refl, (differ_in_length, tt)))
