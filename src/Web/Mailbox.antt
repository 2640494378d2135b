-- ===== src/Web/Mailbox.antt =====
-- The handlers of internal/web/handlers_mail.go for folders and messages, for an account that has
-- logged in.
use cloudpost.Prelude.{
  Bool, List, Option, [], false, find_first, if◌then◌else◌, is_nil, keep, leb, length, ltb, map,
  none, not, some, take, ℕ, ◌&&◌, ◌*◌, ◌++◌, ◌==◌, ◌>>=◌, ◌^◌, ◌||◌, ◌∷◌,
}
use cloudpost.Text.{Text, atoi, codes, eqb, has_prefix, pos, trim_space, ℤ}
use cloudpost.Mailstore.Filters.{move_to_folder_name}
use cloudpost.Mailstore.Flags.{FlagMode, deleted_flag, has_text, like, seen_flag, split_flags}
use cloudpost.Mailstore.Messages.{
  delete_messages, get_message, get_message_raw, list_messages, mark_seen, move_messages, set_flags,
}
use cloudpost.Mailstore.Schema.{Message, Result, Store, err, ok}
use cloudpost.Mailstore.Search.{search_messages}
use cloudpost.Web.Auth.{read_two}
use cloudpost.Web.Http.{
  Attachment, Body, Outside, Request, Response, Site, count, done, failure, file, hits, id_of,
  is_method, number_or_zero, page, post, raw_text, success, view,
}
use cloudpost.Web.Json.{Json, fields_of, nat_in, text_in, texts_in}

-- What a store method leaves, with the answers for a success and for an error.
abbrev pub on_store {ℓ} : {A : Type ℓ} → Site → Store × Result A → Body → ℕ → Site × Response
on_store w (s, ok a) b status = (record w { store = s }, success b)
on_store w (s, err e) b status = (record w { store = s }, failure status)

-- mailListMessages. The store looks at the folder alone.
unfoldable pub mail_list_messages : Site → Request → ℕ → Response
unfolding list_messages number_or_zero
mail_list_messages w r folder =
    let p = list_messages w.store folder (number_or_zero r.offset) (number_or_zero r.limit) false in
    success (page p.0 p.1)

-- mailSearch
unfoldable pub mail_search : Site → Request → ℕ → Response
unfolding read_two search_messages
mail_search w r folder = elim (read_two r.body (codes "field") (codes "query")) [
  | none ↦ failure 400
  | some (fld, q) ↦ success (hits (search_messages w.store folder fld q 100))
]

unfoldable pub message_raw : Site → ℕ → ℕ → Response
unfolding get_message_raw
message_raw w account id = elim (get_message_raw w.store account id) [
  | err e ↦ failure 404
  | ok (raw, m) ↦ success (raw_text raw)
]

unfoldable pub mode_of : Text → FlagMode
unfolding eqb
mode_of t =
    if eqb t (codes "set")
    then FlagMode.set
    else if eqb t (codes "add")
    then FlagMode.add
    else if eqb t (codes "remove")
    then FlagMode.remove
    else FlagMode.other_mode

unfoldable pub read_flags : Option Json → Option (Text × List Text)
unfolding text_in texts_in
read_flags b = do
  fs ← fields_of b
  mode ← text_in fs (codes "mode")
  flags ← texts_in fs (codes "flags")
  some (mode, flags)

unfoldable pub message_flags : Site → Request → ℕ → ℕ → Site × Response
unfolding read_flags set_flags mode_of
message_flags w r account id = elim (read_flags r.body) [
  | none ↦ (w, failure 400)
  | some (mode, flags) ↦
      (record w { store = set_flags w.store account (id ∷ []) (mode_of mode) flags }, success done)
]

unfoldable pub read_move : Option Json → Option (Text × ℕ)
unfolding text_in nat_in
read_move b = do
  fs ← fields_of b
  name ← text_in fs (codes "folder")
  id ← nat_in fs (codes "folder_id")
  some (name, id)

unfoldable pub message_move : Site → Request → ℕ → ℕ → Site × Response
unfolding read_move move_to_folder_name move_messages
message_move w r account id = elim (read_move r.body) [
  | none ↦ (w, failure 400)
  | some (name, to) ↦
      if not (is_nil name)
      then on_store w (move_to_folder_name w.store account id name) done 400
      else if ltb 0 to
      then (record w { store = move_messages w.store account to (id ∷ []) }, success done)
      else (w, failure 400)
]

unfoldable pub message_delete : Site → ℕ → ℕ → Site × Response
unfolding set_flags delete_messages
message_delete w account id =
    let s1 = set_flags w.store account (id ∷ []) FlagMode.add (deleted_flag ∷ []) in
    (record w { store = delete_messages s1 account (id ∷ []) }, success done)

-- ExtractAttachment of the store.
unfoldable pub extract_attachment : Outside → Store → ℕ → ℕ → ℕ → Option (Text × Text)
unfolding get_message_raw
extract_attachment o s account id part = elim (get_message_raw s account id) [
  | err e ↦ none
  | ok (raw, m) ↦ o.extract raw part
]

-- ListAttachments of the store.
unfoldable pub list_attachments : Outside → Store → ℕ → ℕ → Option (List Attachment)
unfolding get_message_raw
list_attachments o s account id = elim (get_message_raw s account id) [
  | err e ↦ none
  | ok (raw, m) ↦ some (o.shown raw).attachments
]

-- The small images that the read view puts into the HTML, under their Content-ID.
abbrev pub is_embedded : Attachment → Bool
is_embedded a =
    not (is_nil a.cid) && has_prefix a.content_type (codes "image/") && leb a.size (2 * 2 ^ 20)

abbrev data_uri : Outside → Attachment → Option (Text × Text) → List (Text × Text)
data_uri o a none = []
data_uri o a (some (content, name)) =
    if is_nil content || ltb (2 * 2 ^ 20) (length content)
    then []
    else (a.cid, codes "data:" ++ (a.content_type ++ (codes ";base64," ++ o.b64_encode content)))
      ∷ []

unfoldable pub cid_data : Outside → Store → ℕ → ℕ → List Attachment → List (Text × Text)
unfolding extract_attachment has_prefix
cid_data o s account id [] = []
cid_data o s account id (a ∷ atts) =
    let rest = cid_data o s account id atts in
    if is_embedded a then data_uri o a (extract_attachment o s account id a.part) ++ rest else rest

abbrev listed_or_none : Option (List Attachment) → List Attachment
listed_or_none none = []
listed_or_none (some atts) = atts

-- The read view of a message that is there: it marks the message as seen.
unfoldable pub show_message : Outside → Site → Request → ℕ → ℕ → Message → Site × Response
unfolding get_message_raw mark_seen cid_data list_attachments
show_message o w r account id m = elim (get_message_raw w.store account id) [
  | err e ↦ (w, failure 500)
  | ok (raw, n) ↦
      let v = o.shown raw in
      let s1 = mark_seen w.store account id in
      let images = cid_data o s1 account id (listed_or_none (list_attachments o s1 account id)) in
      (
        record w { store = s1 },
        success (
            view m v.text
              (if is_nil v.html then none else some (o.sanitize v.html r.allow_remote images))
              v.attachments),
      )
]

unfoldable pub read_message : Outside → Site → Request → ℕ → ℕ → Site × Response
unfolding get_message show_message
read_message o w r account id = elim (get_message w.store account id) [
  | err e ↦ (w, failure 404)
  | ok m ↦ show_message o w r account id m
]

-- The action that mailMessage finds behind the id.
unfoldable pub message_action : Outside → Site → Request → ℕ → ℕ → Text → Site × Response
unfolding message_raw message_flags message_move message_delete read_message is_method eqb
message_action o w r account id action =
    if eqb action (codes "raw")
    then (w, message_raw w account id)
    else if eqb action (codes "flags") && is_method r.method post
    then message_flags w r account id
    else if eqb action (codes "move") && is_method r.method post
    then message_move w r account id
    else if eqb action (codes "delete") && is_method r.method post
    then message_delete w account id
    else if not (is_nil action)
    then (w, failure 404)
    else read_message o w r account id

-- mailMessage, on the id and the action.
unfoldable pub mail_message : Outside → Site → Request → ℕ → Text → Text → Site × Response
unfolding id_of message_action
mail_message o w r account id_text action = elim (id_of id_text) [
  | none ↦ (w, failure 400)
  | some id ↦ message_action o w r account id action
]

-- sanitizeFilename of internal/web/mailsafe.go
abbrev pub bad_in_name : ℕ → Bool
bad_in_name c = ltb c 32 || c == 127 || c == 34 || c == 92 || c == b'/'

unfoldable pub sanitize_filename : Text → Text
unfolding trim_space eqb
sanitize_filename name =
    let out = trim_space (map (λ c. if bad_in_name c then b'_' else c) name) in
    if is_nil out || eqb out (codes ".") || eqb out (codes "..")
    then codes "attachment"
    else take 120 out

abbrev pub non_negative : Option ℤ → Option ℕ
non_negative (some (pos n)) = some n
non_negative _ = none

abbrev serve_file : Option (Text × Text) → Response
serve_file none = failure 404
serve_file (some (content, name)) =
    if ltb (50 * 2 ^ 20) (length content)
    then failure 413
    else success (file (sanitize_filename name) content)

-- handleMailAttachment
unfoldable pub mail_attachment : Outside → Site → ℕ → Text → Text → Response
unfolding id_of atoi extract_attachment sanitize_filename
mail_attachment o w account id_text part_text = elim (id_of id_text) [
  | none ↦ failure 400
  | some id ↦ elim (non_negative (atoi part_text)) [
    | none ↦ failure 400
    | some part ↦ serve_file (extract_attachment o w.store account id part)
  ]
]

-- The images that handleMailCID serves.
abbrev pub is_small_image : Text → Attachment → Bool
is_small_image cid a =
    eqb a.cid cid && has_prefix a.content_type (codes "image/") && leb a.size (2 * 2 ^ 20)

abbrev serve_image : Attachment → Option (Text × Text) → Response
serve_image a none = failure 404
serve_image a (some (content, name)) = success (file a.content_type content)

abbrev pick_image : Outside → Site → ℕ → ℕ → Text → Option (List Attachment) → Response
pick_image o w account id cid none = failure 404
pick_image o w account id cid (some atts) = elim (find_first (is_small_image cid) atts) [
  | none ↦ failure 404
  | some a ↦ serve_image a (extract_attachment o w.store account id a.part)
]

-- handleMailCID
unfoldable pub mail_cid : Outside → Site → ℕ → Text → Text → Response
unfolding id_of list_attachments extract_attachment has_prefix eqb
mail_cid o w account id_text cid_text = elim (id_of id_text) [
  | none ↦ failure 400
  | some id ↦ elim (o.unescape cid_text) [
    | none ↦ failure 400
    | some cid ↦ pick_image o w account id cid (list_attachments o w.store account id)
  ]
]

-- mailReadAll: the page of the folder is marked.
unfoldable pub mail_read_all : Site → ℕ → ℕ → Site × Response
unfolding list_messages like set_flags
mail_read_all w account folder =
    let p = list_messages w.store folder 0 100000 false in
    let ids = map (λ m. m.id) (keep (λ m. not (has_text seen_flag (split_flags m.flags))) p.0) in
    (
      record w { store = set_flags w.store account ids FlagMode.add (seen_flag ∷ []) },
      success (count (length ids)),
    )
