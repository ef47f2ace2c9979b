-- ===== src/Config/Load/Valid.antt =====
-- internal/config/config.go: what validate checks, and what Load therefore gives.
use mailschleuse.Base.{
  codes, Option, ℕ, ◌≤◌, ◌≡◌, refl, sym, ap, ◌∙◌, subst, inl, inr, true, false, not, ◌&&◌, ◌||◌,
  List, [], ◌∷◌, ◌++◌, append_assoc, append-nil, arith, is_nil, Bytes, All, All-append, Bool-cases,
  str_eq, contains, Unique, Unique-append, contains-All, ℤ, pos, negsuc, ok, err, Ensures,
  bind-Ensures, any-Ensures, refuse-Ensures,
}
use mailschleuse.Config.Types.{auth_required, tls_files, Route}
use mailschleuse.Config.Routes.{parse_routes, Parsed}
use mailschleuse.Config.Routes.Rules.{IsUsable, parse_routes-IsUsable}
use mailschleuse.Config.Settings.{Env, env, valid_mailbox_name, has_mailbox}
use mailschleuse.Config.Load.{
  Config, check_names, below, needs_login, is_files, is_off, validate, settings, load, routed,
}

-- The list holds the name, if and only if a Go map made of it does.
pub has_mailbox-contains : (ms : List Bytes) (a : Bytes) → has_mailbox ms a ≡ contains ms a
unfolding has_mailbox contains
has_mailbox-contains [] a = refl
has_mailbox-contains (m ∷ ms) a = elim (Bool-cases (str_eq m a)) [
  | inl t ↦ rw t refl
  | inr f ↦ rw f (has_mailbox-contains ms a)
]

abbrev AreNames : List Bytes → Type 0
AreNames ms = All (λ m. valid_mailbox_name m ≡ true) ms × Unique ms

abbrev Seen : List Bytes → List Bytes → Type 0
Seen all seen = (seen ≡ all) × AreNames seen

check_names-Ensures :
    (ms seen : List Bytes) → AreNames seen → Ensures (Seen (seen ++ ms)) (check_names ms seen)
unfolding check_names
check_names-Ensures [] seen h = (sym (append-nil seen), h)
check_names-Ensures (m ∷ ms) seen h =
    refuse-Ensures (Seen (seen ++ m ∷ ms)) (not (valid_mailbox_name m)) _ _ λ valid.
      refuse-Ensures (Seen (seen ++ m ∷ ms)) (contains seen m) _ _ λ new.
        subst (λ all. Ensures (Seen all) (check_names ms (seen ++ m ∷ [])))
          (append_assoc seen (m ∷ []) ms)
          (check_names-Ensures ms (seen ++ m ∷ []) (
            All-append (λ n. valid_mailbox_name n ≡ true) seen (m ∷ []) h.0
                (ground (arith, valid), tt),
            Unique-append seen m h.1 (contains-All seen m new),
          ))

-- A whole number that is not below n.
abbrev pub AtLeast : ℕ → ℤ → Type 0
AtLeast n v = (k : ℕ) × ((v ≡ pos k) × (n ≤ k))

below-AtLeast : (v : ℤ) (n : ℕ) → below v n ≡ false → AtLeast n v
unfolding below
below-AtLeast (pos k) n e = (k, (refl, ground (arith, e)))
below-AtLeast (negsuc k) n e = cc

-- A password goes with the name of a user.
abbrev pub HasPassword : Bytes → Bytes → Type 0
HasPassword username password = is_nil username ≡ false → is_nil password ≡ false

pub record IsChecked (c : Config) : Type 0 where
  pub some_mailbox : is_nil c.mailboxes ≡ false
  pub names_valid : All (λ m. valid_mailbox_name m ≡ true) c.mailboxes
  pub names_unique : Unique c.mailboxes
  pub smtp_known : has_mailbox c.mailboxes c.smtp_mailbox ≡ true
  pub pop3_known : has_mailbox c.mailboxes c.pop3_mailbox ≡ true
  pub login_given : c.smtp_auth ≡ auth_required → is_nil c.smtp_username ≡ false
  pub smtp_password_given : HasPassword c.smtp_username c.smtp_password
  pub pop3_password_given : HasPassword c.pop3_username c.pop3_password
  pub web_password_given : HasPassword c.web_username c.web_password
  pub files_given :
      c.tls_mode ≡ tls_files → (is_nil c.tls_cert_file ≡ false) × (is_nil c.tls_key_file ≡ false)
  pub no_tls_listener :
      is_off c.tls_mode ≡ true → (is_nil c.smtp_tls_addr ≡ true) × (is_nil c.pop3_tls_addr ≡ true)
  pub messages_kept : AtLeast 1 c.max_messages
  pub size_allowed : AtLeast 1024 c.max_size_bytes

password_given :
    (username password : Bytes)
    → (not (is_nil username) && is_nil password) ≡ false
    → HasPassword username password
password_given username password e h = ground (arith, e, h)

validate-Ensures : (c : Config) → Ensures (λ _. IsChecked c) (validate c)
unfolding validate
validate-Ensures c =
    let Q : Unit {0} → Type 0 = λ _. IsChecked c in
    refuse-Ensures Q (is_nil c.mailboxes) _ _ λ given.
      bind-Ensures (Seen c.mailboxes) Q (check_names c.mailboxes []) _
        (check_names-Ensures c.mailboxes [] (tt, tt))
        λ seen names. refuse-Ensures Q (not (contains seen c.smtp_mailbox)) _ _ λ smtp.
          refuse-Ensures Q (not (contains seen c.pop3_mailbox)) _ _ λ pop3.
            refuse-Ensures Q (needs_login c.smtp_auth && is_nil c.smtp_username) _ _ λ login.
              refuse-Ensures Q (not (is_nil c.smtp_username) && is_nil c.smtp_password) _ _
                λ smtp_pass.
                  refuse-Ensures Q (not (is_nil c.pop3_username) && is_nil c.pop3_password) _ _
                    λ pop3_pass.
                      refuse-Ensures Q (not (is_nil c.web_username) && is_nil c.web_password) _ _
                        λ web_pass.
                          refuse-Ensures Q
                            (is_files c.tls_mode
                              && (is_nil c.tls_cert_file || is_nil c.tls_key_file))
                            _ _
                            λ files.
                              refuse-Ensures Q
                                (is_off c.tls_mode
                                  && (not (is_nil c.smtp_tls_addr) || not (is_nil c.pop3_tls_addr)))
                                _ _
                                λ listeners.
                                  refuse-Ensures Q (below c.max_messages 1) _ _ λ messages.
                                    refuse-Ensures Q (below c.max_size_bytes 1024) _ _ λ size.
                                      let known : (m : Bytes)
                                          → not (contains seen m) ≡ false
                                          → has_mailbox c.mailboxes m ≡ true =
                                        λ m e.
                                          has_mailbox-contains c.mailboxes m
                                          ∙ ap (λ ms. contains ms m) (sym names.0)
                                          ∙ ground (arith, e) in
                                      record {
                                        some_mailbox = given;
                                        names_valid =
                                            subst (All (λ m. valid_mailbox_name m ≡ true)) names.0
                                              names.1.0;
                                        names_unique = subst Unique names.0 names.1.1;
                                        smtp_known = known c.smtp_mailbox smtp;
                                        pop3_known = known c.pop3_mailbox pop3;
                                        login_given = λ e. ground (arith, login, ap needs_login e);
                                        smtp_password_given =
                                            password_given c.smtp_username c.smtp_password
                                              smtp_pass;
                                        pop3_password_given =
                                            password_given c.pop3_username c.pop3_password
                                              pop3_pass;
                                        web_password_given =
                                            password_given c.web_username c.web_password web_pass;
                                        files_given = λ e. (
                                          ground (arith, files, ap is_files e),
                                          ground (arith, files, ap is_files e),
                                        );
                                        no_tls_listener = λ e. (
                                          ground (arith, listeners, e),
                                          ground (arith, listeners, e),
                                        );
                                        messages_kept = below-AtLeast c.max_messages 1 messages;
                                        size_allowed = below-AtLeast c.max_size_bytes 1024 size;
                                      }

-- The settings are checked, and the routes name known mailboxes only.
pub record IsValid (c : Config) : Type 0 where
  pub checked : IsChecked c
  pub usable : All (IsUsable (has_mailbox c.mailboxes)) c.smtp_routes

routed-Ensures :
    {A : Type 0} (P : A → Type 0) (r : Parsed A) → ((a : A) → r ≡ ok a → P a) → Ensures P (routed r)
routed-Ensures P (ok a) h = h a refl
routed-Ensures P (err e) h = tt

with_routes :
    (c : Config) (rs : List Route) → IsChecked c → IsChecked (record c { smtp_routes = rs })
with_routes c rs h = record {
  some_mailbox = h.some_mailbox;
  names_valid = h.names_valid;
  names_unique = h.names_unique;
  smtp_known = h.smtp_known;
  pop3_known = h.pop3_known;
  login_given = h.login_given;
  smtp_password_given = h.smtp_password_given;
  pop3_password_given = h.pop3_password_given;
  web_password_given = h.web_password_given;
  files_given = h.files_given;
  no_tls_listener = h.no_tls_listener;
  messages_kept = h.messages_kept;
  size_allowed = h.size_allowed;
}

-- What Load gives can work at runtime: there is a mailbox, the names of the mailboxes are valid and
-- distinct, the default mailboxes of SMTP and POP3 and those of the routes are among them, a user
-- name has a password, SMTP that requires a login has a user, TLS from files has its files, no
-- listener needs a TLS that is off, and the limits are at least one message and 1024 bytes.
pub load-IsValid :
    (parse_duration : Bytes → Option ℤ) (vars : Env) {c : Config}
    → load parse_duration vars ≡ ok c
    → IsValid c
unfolding load
load-IsValid parse_duration vars e = subst (Ensures IsValid) e (
    any-Ensures IsValid (settings parse_duration vars) _ λ c.
      bind-Ensures (λ _. IsChecked c) IsValid (validate c) _ (validate-Ensures c)
        λ _ checked.
          let known = has_mailbox c.mailboxes in
          let raw = env vars (codes "MS_SMTP_ROUTES") [] in
          let read = parse_routes known raw in
          bind-Ensures (All (IsUsable known)) IsValid (routed read)
            (λ routes. ok (record c { smtp_routes = routes }))
            (routed-Ensures (All (IsUsable known)) read
              λ routes found. parse_routes-IsUsable known raw {routes = routes} found)
            λ routes usable. record { checked = with_routes c routes checked; usable = usable })
