-- ===== src/Web/Admin/Reset.antt =====
-- The factory reset in two steps, with db.Reset of internal/db/db.go and WipeBlobs of
-- internal/mailstore/store.go. A token's text is its number.
use cloudpost.Prelude.{
  Bool, [], false, if◌then◌else◌, length, ltb, none, not, some, true, ◌&&◌, ◌+◌,
}
use cloudpost.Text.{Text, codes, decimal, eqb}
use cloudpost.Installation.Runtime.{factory_reset}
use cloudpost.Web.Auth.{read_two}
use cloudpost.Web.Http.{Request, Response, Site, done, failure, reset_offer, success}

-- adminResetPrepare: a new token for five minutes, and what would be deleted.
unfoldable pub admin_reset_prepare : Site → Site × Response
admin_reset_prepare w = (
  record w {
    reset_token = some w.next_reset_token;
    reset_exp = w.state.clock + 300;
    next_reset_token = w.next_reset_token + 1;
  },
  success (
      reset_offer w.next_reset_token (length w.store.accounts) (length w.store.messages)
        (length w.outbound.items)),
)

-- db.Reset: the rows go, the counters of AUTOINCREMENT stay.
unfoldable pub reset_tables : Site → Site
reset_tables w = record w {
  store = record w.store {
    accounts = [];
    folders = [];
    messages = [];
    filters = [];
    tokens = [];
    scheduled = [];
  };
  outbound = record w.outbound { items = [] };
  remote_state = record { uidls = []; uid_validity = []; last_uid = [] };
}

-- WipeBlobs: the files of blobs/, outbound/ and scheduled/.
unfoldable pub wipe_blobs : Site → Site
wipe_blobs w = record w {
  store = record w.store { blobs = []; scheduled_files = [] };
  outbound = record w.outbound { files = [] };
}

-- doFullReset: the webmail sessions go only when the configuration could be removed.
unfoldable pub do_full_reset : Site → Site × Bool
unfolding reset_tables wipe_blobs factory_reset
do_full_reset w =
    let w1 = wipe_blobs (reset_tables w) in
    let r = factory_reset w1.state in
    if r.1
    then (record w1 { state = r.0; mail_sessions = [] }, true)
    else (record w1 { state = r.0 }, false)

unfoldable pub token_valid : Site → Text → Bool
unfolding eqb decimal
token_valid w text = elim w.reset_token [
  | none ↦ false
  | some t ↦ eqb text (decimal t) && ltb w.state.clock w.reset_exp
]

unfoldable pub confirm : Site → Text → Text → Site × Response
unfolding token_valid do_full_reset eqb
confirm w text phrase =
    let w1 = record w { reset_token = none; reset_exp = 0 } in
    if not (token_valid w text)
    then (w1, failure 400)
    else if not (eqb phrase (codes "RESET"))
    then (w1, failure 400)
    else let r = do_full_reset w1 in (r.0, if r.1 then success done else failure 500)

-- adminResetConfirm: the token is used up by any attempt.
unfoldable pub admin_reset_confirm : Site → Request → Site × Response
unfolding read_two confirm
admin_reset_confirm w r = elim (read_two r.body (codes "token") (codes "phrase")) [
  | none ↦ (w, failure 400)
  | some (text, phrase) ↦ confirm w text phrase
]
