-- ===== src/Api/Stored.antt =====
-- What PUT /api/v1/settings stores.
use night_watcher.Base.{
  ℕ, ◌≤◌, All, length, Bool, true, false, ◌||◌, Option, none, some, [], ◌∷◌, ◌≡◌, refl, ◌⊎◌, inl,
  inr, Bytes, codes, arith, Bool-cases, Option-cases, Result, ok, err,
}
use night_watcher.Base.Int.{ℤ, pos, ◌≤ℤ◌, ltb_ℤ}
use night_watcher.Api.Json.{Json, null, boolean, number, string, array, object, lookup, members_of}
use night_watcher.Api.Names.{valid_bind, all_bytes, is_bind_byte, is_alnum, Reply, sends}
use night_watcher.Text.{is_alpha, is_digit}
use night_watcher.Api.Settings.{
  Listening, SettingsReport, Stop, settings_json, put_bind, put_bind_value, port_of, put_port_value,
  put_port, tls_of, on_off, put_tls, unless_stopped, put_settings,
}
use night_watcher.Database.{
  Statement, quoted, sql, Answer, accepted, rejected, Db, ret, ◌>>=◌, ◌>>◌, exec, answered,
  store_result, int_text,
}
use night_watcher.Database.Accounts.{get_setting, set_setting}
use night_watcher.Database.Calls.{Every}
use night_watcher.Database.Script.{bind-Every}

unfoldable pub write_of : Bytes → Bytes → Statement
unfolding sql
write_of name value =
    sql "INSERT INTO settings (name, value) VALUES ("
    ∷ quoted name
    ∷ sql ", "
    ∷ quoted value
    ∷ sql ") ON DUPLICATE KEY UPDATE value=VALUES(value)"
    ∷ []

unfoldable pub read_of : Bytes → Statement
unfolding sql
read_of name = sql "SELECT value FROM settings WHERE name=" ∷ quoted name ∷ sql " LIMIT 1" ∷ []

-- A letter, a digit or `:`, or one of `-`, `.` and `_`.
abbrev pub IsHostByte : ℕ → Type 0
IsHostByte c =
    ((48 ≤ c) × (c ≤ 58))
    ⊎ (((65 ≤ c) × (c ≤ 90)) ⊎ (((97 ≤ c) × (c ≤ 122)) ⊎ ((c ≡ 45) ⊎ ((c ≡ 46) ⊎ (c ≡ 95)))))

abbrev pub IsHostText : Bytes → Type 0
IsHostText b = (1 ≤ length b) × (length b ≤ 64) × All IsHostByte b

-- A statement that reads a setting, or writes a valid one.
abbrev pub IsValidWrite : Statement → Type 0
IsValidWrite q =
    ((name : Bytes) × (q ≡ read_of name))
    ⊎ (((b : Bytes) × IsHostText b × (q ≡ write_of (codes "api_bind") b))
        ⊎ (((p : ℤ) × (pos 1 ≤ℤ p)
              × (p ≤ℤ pos 65535)
              × (q ≡ write_of (codes "api_port") (int_text p)))
            ⊎ ((q ≡ write_of (codes "api_tls") (codes "on"))
                ⊎ (q ≡ write_of (codes "api_tls") (codes "off")))))

bind_byte-IsHostByte : (c : ℕ) → is_bind_byte c ≡ true → IsHostByte c
unfolding is_bind_byte is_alnum is_alpha is_digit
bind_byte-IsHostByte c h = ground arith

bind_bytes-IsHostByte : (b : Bytes) → all_bytes is_bind_byte b ≡ true → All IsHostByte b
unfolding all_bytes
bind_bytes-IsHostByte [] h = tt
bind_bytes-IsHostByte (c ∷ b) h =
    (bind_byte-IsHostByte c (ground arith), bind_bytes-IsHostByte b (ground arith))

valid_bind-IsHostText : (b : Bytes) → valid_bind b ≡ true → IsHostText b
unfolding valid_bind
valid_bind-IsHostText [] h = cc
valid_bind-IsHostText (c ∷ b) h =
    (omega arith, ground arith, bind_bytes-IsHostByte (c ∷ b) (ground arith))

Valid : {A : Type 0} → Db A → Type 0
Valid m = Every IsValidWrite m

answered-Valid : (a : Answer) → Valid (answered a)
unfolding answered Valid
answered-Valid (rejected e) = tt
answered-Valid (accepted r e i n) = tt

store_result-Valid : (w : Bytes) (a : Answer) → Valid (store_result w a)
unfolding store_result Valid
store_result-Valid w (rejected e) = tt
store_result-Valid w (accepted none e i n) = tt
store_result-Valid w (accepted (some r) e i n) = tt

module _ {A B : Type 0} where
  bind-Valid : (m : Db A) (k : A → Db B) → Valid m → ((a : A) → Valid (k a)) → Valid (m >>= k)
  unfolding Valid
  bind-Valid m k h l = bind-Every IsValidWrite m k h l

ret-Valid : {A : Type 0} (a : A) → Valid (ret a)
unfolding Valid
ret-Valid a = tt

exec-Valid : (q : Statement) → IsValidWrite q → Valid (exec q)
unfolding exec Valid
exec-Valid q h = (h, answered-Valid)

set_setting-Valid :
    (name value : Bytes) → IsValidWrite (write_of name value) → Valid (set_setting name value)
unfolding set_setting write_of ◌>>◌
set_setting-Valid name value h =
    bind-Valid (exec (write_of name value)) _ (exec-Valid (write_of name value) h)
      (λ a. ret-Valid tt)

get_setting-Valid : (name : Bytes) → Valid (get_setting name)
unfolding get_setting read_of
get_setting-Valid name =
    bind-Valid (exec (read_of name)) _ (exec-Valid (read_of name) (inl (name, refl))) (λ a.
      bind-Valid (store_result (codes "get_setting: ") a) _
        (store_result-Valid (codes "get_setting: ") a) (λ res. ret-Valid _))

settings_json-Valid : (run : Listening) → Valid (settings_json run)
unfolding settings_json
settings_json-Valid run =
    bind-Valid (get_setting (codes "api_bind")) _ (get_setting-Valid (codes "api_bind")) (λ bind.
      bind-Valid (get_setting (codes "api_port")) _ (get_setting-Valid (codes "api_port")) (λ port.
        bind-Valid (get_setting (codes "api_tls")) _ (get_setting-Valid (codes "api_tls"))
          (λ tls. ret-Valid _)))

unless_stopped-Valid :
    (stop : Stop) (next : Db (Reply SettingsReport)) → Valid next → Valid (unless_stopped stop next)
unfolding unless_stopped
unless_stopped-Valid none next h = h
unless_stopped-Valid (some (status, message)) next h = ret-Valid _

port_low : (p : ℤ) → (ltb_ℤ p (pos 1) || ltb_ℤ (pos 65535) p) ≡ false → pos 1 ≤ℤ p
port_low p h = ground arith

port_high : (p : ℤ) → (ltb_ℤ p (pos 1) || ltb_ℤ (pos 65535) p) ≡ false → p ≤ℤ pos 65535
port_high p h = ground arith

put_port_value-Valid : (r : Result ℤ) → Valid (put_port_value r)
unfolding put_port_value ◌>>◌ Valid
put_port_value-Valid (err e) = tt
put_port_value-Valid (ok p) = elim (Bool-cases (ltb_ℤ p (pos 1) || ltb_ℤ (pos 65535) p)) [
  | inl e ↦ rw e tt
  | inr e ↦ rw e (
      bind-Valid (set_setting (codes "api_port") (int_text p)) _
        (set_setting-Valid (codes "api_port") (int_text p)
          (inr (inr (inl (p, port_low p e, port_high p e, refl)))))
        (λ a. ret-Valid {A = Stop} none))
]

on_off-IsOnOff :
    (on : Bool)
    → (write_of (codes "api_tls") (on_off on) ≡ write_of (codes "api_tls") (codes "on"))
      ⊎ (write_of (codes "api_tls") (on_off on) ≡ write_of (codes "api_tls") (codes "off"))
unfolding on_off
on_off-IsOnOff true = inl refl
on_off-IsOnOff false = inr refl

module _ {N : Type 0} where
  put_bind_value-Valid : (v : Option (Json N)) → Valid (put_bind_value v)
  unfolding put_bind_value ◌>>◌
  put_bind_value-Valid none = ret-Valid none
  put_bind_value-Valid (some null) = ret-Valid none
  put_bind_value-Valid (some (boolean b)) = ret-Valid none
  put_bind_value-Valid (some (number n)) = ret-Valid none
  put_bind_value-Valid (some (array es)) = ret-Valid none
  put_bind_value-Valid (some (object ms)) = ret-Valid none
  put_bind_value-Valid (some (string b)) = elim (Bool-cases (valid_bind b)) [
    | inl e ↦ rw e (
        bind-Valid (set_setting (codes "api_bind") b) _
          (set_setting-Valid (codes "api_bind") b (inr (inl (b, valid_bind-IsHostText b e, refl))))
          (λ a. ret-Valid {A = Stop} none))
    | inr e ↦ rw e (ret-Valid _)
  ]

  put_tls-Valid : (body : Json N) → Valid (put_tls body)
  unfolding put_tls
  put_tls-Valid body = elim (Option-cases (lookup (codes "tls") (members_of body))) [
    | inl e ↦ rw (put_tls, e) (ret-Valid tt)
    | inr (v, e) ↦
        rw (put_tls, e)
          (set_setting-Valid (codes "api_tls") (on_off (tls_of v))
            (inr (inr (inr (on_off-IsOnOff (tls_of v))))))
  ]

  put_port-Valid : (get_int : Json N → Result ℤ) (body : Json N) → Valid (put_port get_int body)
  unfolding put_port
  put_port-Valid get_int body = elim (Option-cases (lookup (codes "port") (members_of body))) [
    | inl e ↦ rw (put_port, e) (ret-Valid none)
    | inr (v, e) ↦ rw (put_port, e) (put_port_value-Valid (port_of get_int v))
  ]

-- Whatever the body and the server's answers, PUT /api/v1/settings only reads settings and stores
-- valid ones: an address of 1 to 64 letters, digits, colons, dashes, dots and underscores, the
-- decimal text of a port from 1 to 65535, and `on` or `off` for TLS.
pub put_settings-IsValidWrite :
    {N : Type 0} (get_int : Json N → Result ℤ) (run : Listening) (body : Json N)
    → Every IsValidWrite (put_settings get_int run body)
unfolding put_settings put_bind Valid ◌>>◌
put_settings-IsValidWrite get_int run body =
    bind-Valid (put_bind body) _ (put_bind_value-Valid (lookup (codes "bind") (members_of body)))
      (λ bind_stop. unless_stopped-Valid bind_stop _ (
        bind-Valid (put_port get_int body) _ (put_port-Valid get_int body) (λ port_stop.
          unless_stopped-Valid port_stop _ (
            bind-Valid (put_tls body) _ (put_tls-Valid body) (λ _.
              bind-Valid (settings_json run) _ (settings_json-Valid run)
                (λ report. ret-Valid (sends report)))))))
