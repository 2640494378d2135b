-- ===== src/Web/Admin/Dkim.antt =====
-- The selector, the key and the switch of DKIM.
use cloudpost.Prelude.{
  Bool, Option, all, if◌then◌else◌, is_nil, leb, length, none, not, some, ℕ, ◌&&◌, ◌==◌, ◌>>=◌,
  ◌||◌,
}
use cloudpost.Text.{Text, codes, trim_space}
use cloudpost.Installation.Config.{Config}
use cloudpost.Web.Admin.Settings.{answer_ok, in_place, store_config}
use cloudpost.Web.Auth.{read_one}
use cloudpost.Web.Http.{Outside, Request, Response, Site, failure}
use cloudpost.Web.Json.{Json, fields_of, flag_in, text_in}

abbrev selector_char : ℕ → Bool
selector_char c =
    (leb b'a' c && leb c b'z')
    || ((leb b'0' c && leb c b'9') || (c == b'.' || (c == b'_' || c == b'-')))

unfoldable pub valid_selector : Text → Bool
valid_selector s = not (is_nil s) && (leb (length s) 63 && all selector_char s)

-- adminDKIMGenerate
unfoldable pub admin_dkim_generate : Outside → Site → Request → Site × Response
unfolding read_one valid_selector store_config
admin_dkim_generate o w r = elim w.state.cfg [
  | none ↦ (w, failure 400)
  | some c ↦ elim (read_one r.body (codes "selector")) [
    | none ↦ (w, failure 400)
    | some sel ↦
        if not (valid_selector sel)
        then (w, failure 400)
        else answer_ok (
            store_config w
              (record c { dkim_selector = sel; dkim_key_pem = o.new_dkim_key w.state.clock }))
  ]
]

-- The end of adminDKIMSave: the test is on the switch as it was.
unfoldable pub dkim_switch : Site → Config → Bool → Site × Response
unfolding store_config
dkim_switch w c on =
    if c.dkim_enabled && (is_nil c.dkim_selector || is_nil c.dkim_key_pem)
    then (in_place w c, failure 400)
    else answer_ok (store_config w (record c { dkim_enabled = on }))

unfoldable pub dkim_key : Outside → Site → Config → Bool → Text → Site × Response
unfolding dkim_switch trim_space
dkim_key o w c on key =
    if is_nil (trim_space key)
    then dkim_switch w c on
    else if not (o.good_dkim_key key)
    then (in_place w c, failure 400)
    else dkim_switch w (record c { dkim_key_pem = trim_space key }) on

unfoldable pub dkim_save : Outside → Site → Config → Bool → Text → Text → Site × Response
unfolding dkim_key valid_selector
dkim_save o w c on sel key =
    if is_nil sel
    then dkim_key o w c on key
    else if not (valid_selector sel)
    then (w, failure 400)
    else dkim_key o w (record c { dkim_selector = sel }) on key

unfoldable pub read_dkim : Option Json → Option (Bool × Text × Text)
unfolding flag_in text_in
read_dkim b = do
  fs ← fields_of b
  on ← flag_in fs (codes "enabled")
  sel ← text_in fs (codes "selector")
  key ← text_in fs (codes "private_key")
  some (on, sel, key)

-- adminDKIMSave
unfoldable pub admin_dkim_save : Outside → Site → Request → Site × Response
unfolding read_dkim dkim_save
admin_dkim_save o w r = elim w.state.cfg [
  | none ↦ (w, failure 400)
  | some c ↦ elim (read_dkim r.body) [
    | none ↦ (w, failure 400)
    | some (on, sel, key) ↦ dkim_save o w c on sel key
  ]
]
