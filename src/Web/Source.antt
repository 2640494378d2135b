-- ===== src/Web/Source.antt =====
-- The text of a message that is composed: internal/web/handlers_compose.go.
use cloudpost.Prelude.{
  Bool, List, Option, [], drop, find_first, if◌then◌else◌, is_nil, keep, length, ltb, none, not,
  some, suc, zero, ℕ, ◌*◌, ◌++◌, ◌+◌, ◌-◌, ◌==◌, ◌>>=◌, ◌^◌, ◌||◌, ◌∷◌,
}
use cloudpost.Text.{Text, codes, equal_fold, has_prefix, last_index_byte, trim_right, trim_space}
use cloudpost.Web.Http.{Outside}
use cloudpost.Web.Json.{Items, Json, arr, cons, fields_of, member, nat_in, nil, null, text_in}
use cloudpost.Web.Mime.{b64_wrap, crlf, mime_word_encode}

-- sanitizeHeader: CR, LF and NUL go.
unfoldable pub sanitize_header : Text → Text
sanitize_header = keep (λ c. not (c == 13 || (c == 10 || c == 0)))

pub record ComposeAttachment : Type 0 where
  pub filename : Text
  pub content : Text

pub record ComposeReq : Type 0 where
  pub to : Text
  pub cc : Text
  pub subject : Text
  pub body : Text
  pub attachments : List ComposeAttachment
  pub delay_min : ℕ
  pub send_at : ℕ

unfoldable pub attachments_of : Items → Option (List ComposeAttachment)
unfolding text_in
attachments_of nil = some []
attachments_of (cons j js) = do
  rest ← attachments_of js
  fs ← fields_of (some j)
  name ← text_in fs (codes "filename")
  text ← text_in fs (codes "content")
  some (record { filename = name; content = text } ∷ rest)

unfoldable pub read_attachments : Option Json → Option (List ComposeAttachment)
unfolding attachments_of
read_attachments none = some []
read_attachments (some null) = some []
read_attachments (some (arr js)) = attachments_of js
read_attachments (some _) = none

unfoldable pub read_compose : Option Json → Option ComposeReq
unfolding text_in nat_in read_attachments member equal_fold
read_compose b = do
  fs ← fields_of b
  to ← text_in fs (codes "to")
  cc ← text_in fs (codes "cc")
  title ← text_in fs (codes "subject")
  text ← text_in fs (codes "body")
  atts ← read_attachments (member equal_fold (codes "attachments") fs)
  delay ← nat_in fs (codes "delay_min")
  at ← nat_in fs (codes "send_at")
  some (record {
    to = to;
    cc = cc;
    subject = title;
    body = text;
    attachments = atts;
    delay_min = delay;
    send_at = at;
  })

-- strings.NewReplacer: at each place the first of the old texts that begins there is replaced.
abbrev begins : Text → Text × Text → Bool
begins s p = has_prefix s p.0

unfoldable pub replace_from : List (Text × Text) → ℕ → Text → Text
unfolding has_prefix
replace_from pairs skip [] = []
replace_from pairs (suc skip) (c ∷ s) = replace_from pairs skip s
replace_from pairs zero (c ∷ s) = elim (find_first (begins (c ∷ s)) pairs) [
  | none ↦ c ∷ replace_from pairs 0 s
  | some (old, new) ↦ new ++ replace_from pairs (length old - 1) s
]

unfoldable pub render_signature : Outside → ℕ → Text → Text → Text → Text → Text
unfolding replace_from trim_space
render_signature o now sig name addr title =
    if is_nil (trim_space sig)
    then []
    else replace_from
        ((codes "{{datetime}}", o.stamp now)
          ∷ (codes "{{date}}", o.day now)
          ∷ (codes "{{time}}", o.time now)
          ∷ (codes "{{from}}", name)
          ∷ (codes "{{address}}", addr)
          ∷ (codes "{{subject}}", title)
          ∷ [])
        0 sig

abbrev pub max_attach_bytes : ℕ
max_attach_bytes = 20 * 2 ^ 20

abbrev pub max_attach_total : ℕ
max_attach_total = 35 * 2 ^ 20

abbrev pub line : Text → Text
line t = t ++ crlf

-- One part for each attachment; none when one is no base64 or too large.
unfoldable pub attachment_parts : Outside → Text → ℕ → List ComposeAttachment → Option Text
unfolding sanitize_header b64_wrap trim_space
attachment_parts o bound total [] = some []
attachment_parts o bound total (a ∷ atts) = elim (o.b64_decode (trim_space a.content)) [
  | none ↦ none
  | some bytes ↦
      let total' = total + length bytes in
      let rest = attachment_parts o bound total' atts in
      if ltb max_attach_bytes (length bytes) || ltb max_attach_total total'
      then none
      else rest >>= λ more. some (
          line (codes "--" ++ bound)
          ++ (line (
                codes "Content-Type: application/octet-stream; name=\""
                ++ (sanitize_header a.filename ++ codes "\""))
              ++ (line (
                    codes "Content-Disposition: attachment; filename=\""
                    ++ (sanitize_header a.filename ++ codes "\""))
                  ++ (line (codes "Content-Transfer-Encoding: base64")
                      ++ (crlf ++ (b64_wrap o bytes ++ (crlf ++ more)))))))
]

unfoldable pub text_part : Outside → Text → Text
unfolding b64_wrap
text_part o text =
    line (codes "Content-Type: text/plain; charset=utf-8")
    ++ (line (codes "Content-Transfer-Encoding: base64") ++ (crlf ++ b64_wrap o text))

-- fromDomainOf
unfoldable pub from_domain_of : Text → Text
unfolding last_index_byte
from_domain_of addr = elim (last_index_byte b'@' addr) [
  | none ↦ codes "localhost"
  | some i ↦ if ltb i (length addr - 1) then drop (i + 1) addr else codes "localhost"
]

-- The header lines above the content type.
unfoldable pub heading : Outside → ℕ → Text → Text → Text → Text → Text → Text
unfolding sanitize_header mime_word_encode from_domain_of
heading o now name addr to cc title =
    line (codes "From: " ++ (sanitize_header name ++ (codes " <" ++ (addr ++ codes ">"))))
    ++ (line (codes "To: " ++ to)
        ++ ((if is_nil cc then [] else line (codes "Cc: " ++ cc))
            ++ (line (codes "Subject: " ++ mime_word_encode o title)
                ++ (line (codes "Date: " ++ o.mail_date now)
                    ++ (line (
                          codes "Message-ID: <"
                          ++ (o.message_stamp now
                              ++ (codes "@" ++ (from_domain_of addr ++ codes ">"))))
                        ++ line (codes "MIME-Version: 1.0"))))))

abbrev is_line_end : ℕ → Bool
is_line_end c = c == 13 || c == 10

-- The signature goes below the text, behind the usual mark.
unfoldable pub signed_text : Text → Text → Text
unfolding trim_right
signed_text body sig =
    if is_nil sig
    then body
    else trim_right is_line_end body ++ (crlf ++ (crlf ++ (codes "-- " ++ (crlf ++ sig))))

-- buildMessage
unfoldable pub build_message :
    Outside
    → ℕ
    → Text
    → Text
    → Text
    → Text
    → Text
    → Text
    → Text
    → List ComposeAttachment
    → Option Text
unfolding heading signed_text text_part attachment_parts
build_message o now name addr to cc title body sig [] =
    some (heading o now name addr to cc title ++ text_part o (signed_text body sig))
build_message o now name addr to cc title body sig (a ∷ atts) =
    let bound = o.boundary now in
    attachment_parts o bound 0 (a ∷ atts) >>= λ parts. some (
      heading o now name addr to cc title
      ++ (line (codes "Content-Type: multipart/mixed; boundary=\"" ++ (bound ++ codes "\""))
          ++ (crlf
              ++ (line (codes "This is a multi-part message in MIME format.")
                  ++ (line (codes "--" ++ bound)
                      ++ (text_part o (signed_text body sig)
                          ++ (crlf ++ (parts ++ line (codes "--" ++ (bound ++ codes "--"))))))))))
