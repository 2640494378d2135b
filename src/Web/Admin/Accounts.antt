-- ===== src/Web/Admin/Accounts.antt =====
-- Accounts, their folders and their API tokens.
use cloudpost.Prelude.{
  Bool, Option, [], false, if◌then◌else◌, is_nil, ltb, none, not, some, true, ℕ, ◌>>=◌, ◌||◌,
}
use cloudpost.Text.{Text, codes, eqb, trim_space}
use cloudpost.Mailstore.Accounts.{
  create_local_account, create_remote_account, delete_account, get_account, update_account,
}
use cloudpost.Mailstore.Folders.{delete_folder, ensure_folder, rename_folder}
use cloudpost.Mailstore.Schema.{Account, ApiToken, Kind, Result, Store, err, kind_eqb, ok}
use cloudpost.Mailstore.Tokens.{create_api_token, revoke_api_token}
use cloudpost.Web.Auth.{read_one}
use cloudpost.Web.Http.{
  Outside, Request, Response, Site, account_row, done, failure, made_folder, success, token_secret,
}
use cloudpost.Web.Json.{Json, fields_of, nat_in, pointer_in, text_in}
use cloudpost.Web.Mailbox.{on_store}

pub record AccountReq : Type 0 where
  pub kind : Text
  pub address : Text
  pub display_name : Text
  pub password : Text
  pub signature : Text
  pub remote_proto : Text
  pub remote_host : Text
  pub remote_port : ℕ
  pub remote_tls : Text
  pub remote_user : Text
  pub remote_pass : Text
  pub remote_folder : Text
  pub remote_target : Text
  pub fetch_enabled : Option Bool
  pub fetch_interval_min : ℕ
  pub fetch_keep_on_server : Option Bool

unfoldable pub read_account : Option Json → Option AccountReq
unfolding text_in nat_in pointer_in
read_account b = do
  fs ← fields_of b
  kd ← text_in fs (codes "kind")
  ad ← text_in fs (codes "address")
  dn ← text_in fs (codes "display_name")
  pw ← text_in fs (codes "password")
  sg ← text_in fs (codes "signature")
  rp ← text_in fs (codes "remote_proto")
  rh ← text_in fs (codes "remote_host")
  rn ← nat_in fs (codes "remote_port")
  rt ← text_in fs (codes "remote_tls")
  ru ← text_in fs (codes "remote_user")
  rw' ← text_in fs (codes "remote_pass")
  rf ← text_in fs (codes "remote_folder")
  rg ← text_in fs (codes "remote_target")
  fe ← pointer_in fs (codes "fetch_enabled")
  fi ← nat_in fs (codes "fetch_interval_min")
  fk ← pointer_in fs (codes "fetch_keep_on_server")
  some (record {
    kind = kd;
    address = ad;
    display_name = dn;
    password = pw;
    signature = sg;
    remote_proto = rp;
    remote_host = rh;
    remote_port = rn;
    remote_tls = rt;
    remote_user = ru;
    remote_pass = rw';
    remote_folder = rf;
    remote_target = rg;
    fetch_enabled = fe;
    fetch_interval_min = fi;
    fetch_keep_on_server = fk;
  })

abbrev pub pointed {ℓ} : {A : Type ℓ} → A → Option A → A
pointed d none = d
pointed d (some b) = b

-- The row that adminCreateAccount hands to CreateRemoteAccount.
abbrev pub remote_draft : AccountReq → Account
remote_draft q = record {
  id = 0;
  kind = Kind.remote;
  address = q.address;
  display_name = q.display_name;
  password_hash = [];
  remote_proto = q.remote_proto;
  remote_host = q.remote_host;
  remote_port = q.remote_port;
  remote_tls = q.remote_tls;
  remote_user = q.remote_user;
  remote_pass = q.remote_pass;
  remote_folder = q.remote_folder;
  remote_target = q.remote_target;
  fetch_enabled = pointed true q.fetch_enabled;
  fetch_interval_min = q.fetch_interval_min;
  fetch_keep_on_server = pointed true q.fetch_keep_on_server;
  signature = [];
  last_fetch_at = 0;
  last_fetch_ok = false;
  last_error = [];
  created_at = 0;
}

abbrev pub account_answer : Site → Store × Result Account → Site × Response
account_answer w (s, ok a) = (record w { store = s }, success (account_row a))
account_answer w (s, err e) = (record w { store = s }, failure 400)

-- adminCreateAccount
unfoldable pub admin_create_account : Outside → Site → Request → Site × Response
unfolding read_account create_local_account create_remote_account eqb
admin_create_account o w r = elim (read_account r.body) [
  | none ↦ (w, failure 400)
  | some q ↦
      if is_nil q.kind || eqb q.kind (codes "local")
      then account_answer w (create_local_account o.ext w.store q.address q.password q.display_name)
      else account_answer w (create_remote_account w.store (remote_draft q))
]

abbrev pub or_text : Text → Text → Text
or_text v d = if is_nil v then d else v

abbrev remote_edits : AccountReq → Account → Account
remote_edits q a = record a {
  remote_proto = or_text q.remote_proto a.remote_proto;
  remote_host = or_text q.remote_host a.remote_host;
  remote_port = if ltb 0 q.remote_port then q.remote_port else a.remote_port;
  remote_tls = or_text q.remote_tls a.remote_tls;
  remote_user = or_text q.remote_user a.remote_user;
  remote_pass = or_text q.remote_pass a.remote_pass;
  remote_folder = or_text q.remote_folder a.remote_folder;
  remote_target = q.remote_target;
  fetch_interval_min =
      if ltb 0 q.fetch_interval_min then q.fetch_interval_min else a.fetch_interval_min;
  fetch_enabled = pointed a.fetch_enabled q.fetch_enabled;
  fetch_keep_on_server = pointed a.fetch_keep_on_server q.fetch_keep_on_server;
}

-- The account with what the request changes.
unfoldable pub edits : AccountReq → Account → Account
unfolding kind_eqb
edits q a =
    let b = record a { address = or_text q.address a.address; display_name = q.display_name } in
    if kind_eqb a.kind Kind.local then record b { signature = q.signature } else remote_edits q b

abbrev row_answer : Result Account → Response
row_answer (ok a) = success (account_row a)
row_answer (err e) = success done

abbrev pub updated_answer : Site → ℕ → Store × Result (Unit {0}) → Site × Response
updated_answer w id (s, ok _) = (record w { store = s }, row_answer (get_account s id))
updated_answer w id (s, err e) = (record w { store = s }, failure 400)

-- adminUpdateAccount
unfoldable pub admin_update_account : Outside → Site → Request → ℕ → Site × Response
unfolding get_account read_account update_account edits
admin_update_account o w r id = elim (get_account w.store id) [
  | err e ↦ (w, failure 404)
  | ok a ↦ elim (read_account r.body) [
    | none ↦ (w, failure 400)
    | some q ↦ updated_answer w id (update_account o.ext w.store (edits q a) q.password)
  ]
]

unfoldable pub admin_get_account : Site → ℕ → Response
unfolding get_account
admin_get_account w id = elim (get_account w.store id) [
  | err e ↦ failure 404
  | ok a ↦ success (account_row a)
]

unfoldable pub admin_delete_account : Site → ℕ → Site × Response
unfolding delete_account
admin_delete_account w id = (record w { store = delete_account w.store id }, success done)

-- The fetch runs after the answer, beside the handlers.
unfoldable pub admin_fetch_now : Site → ℕ → Response
unfolding get_account kind_eqb
admin_fetch_now w id = elim (get_account w.store id) [
  | err e ↦ failure 404
  | ok a ↦ if kind_eqb a.kind Kind.remote then success done else failure 404
]

-- adminListTokens, adminCreateToken and adminRevokeToken; `secret` is the draw.
abbrev pub token_answer : Site → Store × Result (ApiToken × Text) → Site × Response
token_answer w (s, ok (t, text)) = (record w { store = s }, success (token_secret t text))
token_answer w (s, err e) = (record w { store = s }, failure 500)

abbrev pub label_of : Request → Option Text
label_of r = if r.has_content then read_one r.body (codes "label") else some []

unfoldable pub admin_create_token : Outside → Site → Request → ℕ → Text → Site × Response
unfolding get_account kind_eqb create_api_token read_one
admin_create_token o w r account secret = elim (get_account w.store account) [
  | err e ↦ (w, failure 404)
  | ok a ↦ if not (kind_eqb a.kind Kind.local) then (w, failure 404) else elim (label_of r) [
    | none ↦ (w, failure 400)
    | some label ↦ token_answer w (create_api_token o.ext w.store account label secret)
  ]
]

unfoldable pub admin_revoke_token : Site → ℕ → ℕ → Site × Response
unfolding revoke_api_token
admin_revoke_token w account id = on_store w (revoke_api_token w.store account id) done 400

abbrev pub folder_answer : Site → Store × Result ℕ → Site × Response
folder_answer w (s, ok id) = (record w { store = s }, success (made_folder id))
folder_answer w (s, err e) = (record w { store = s }, failure 400)

unfoldable pub admin_create_folder : Site → Request → ℕ → Site × Response
unfolding read_one ensure_folder trim_space
admin_create_folder w r account = elim (read_one r.body (codes "name")) [
  | none ↦ (w, failure 400)
  | some name ↦
      if is_nil (trim_space name)
      then (w, failure 400)
      else folder_answer w (ensure_folder w.store account (trim_space name) [])
]

unfoldable pub admin_rename_folder : Site → Request → ℕ → ℕ → Site × Response
unfolding read_one rename_folder trim_space
admin_rename_folder w r account folder = elim (read_one r.body (codes "name")) [
  | none ↦ (w, failure 400)
  | some name ↦ on_store w (rename_folder w.store account folder (trim_space name)) done 400
]

unfoldable pub admin_delete_folder : Site → ℕ → ℕ → Site × Response
unfolding delete_folder
admin_delete_folder w account folder = on_store w (delete_folder w.store account folder) done 400
