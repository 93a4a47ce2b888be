-- ===== src/Mail.antt =====
-- The notification of mail (src/connection-mail.c).
pub mod Batches
mod Tests
use telepathy_haze.Prelude.{
  is_some, suc, Option, ◌++◌, inr, Bool, ◌⊎◌, String, if◌then◌else◌, ◌>>=◌, none, List, inl, ◌∷◌,
  ◌==◌, some, not, str_eq, zero, true, [], ℕ,
}

-- What the code takes from GLib: g_utf8_strchr of '@', and concatenation.
pub record Texts : Type 0 where
  pub has_at : String → Bool
  pub append : String → String → String

-- A mail address: a name and an address.
pub record Address : Type 0 where
  pub name : String
  pub address : String

pub record Mail : Type 0 where
  pub url_data : String
  pub sender : Address
  pub recipient : Address
  pub subject : String

-- What libpurple tells of a mail, each part of it NULL or a string. The arrays of a call are one list, a
-- mail a row; the row behind the last mail is out of bounds.
pub record Columns : Type 0 where
  pub subjects : List (Option String)
  pub froms : List (Option String)
  pub tos : List (Option String)
  pub urls : List (Option String)

pub data UrlData : Type 0 where
  string_value : String → UrlData
  other_value : UrlData

pub data Error : Type 0 where
  not_implemented invalid_argument : Error

module _ (T : Texts) where
  -- The address of the account; a name without '@' gets a domain.
  unfoldable pub get_email : String → String → String
  get_email username protocol =
      if T.has_at username
      then username
      else if str_eq protocol "prpl-yahoo"
      then T.append username "@yahoo.com"
      else T.append (T.append username "@") protocol

  -- The senders or the recipients of a mail: one address, or one name.
  unfoldable pub wrap_mail_address : String → Address
  wrap_mail_address str =
      if T.has_at str
      then record { name = ""; address = str }
      else record { name = str; address = "" }

  -- The item a pointer into an array stands at; `none` is an access out of bounds.
  abbrev pub first : List (Option String) → Option (Option String)
  first [] = none
  first (x ∷ xs) = some x

  abbrev pub advance : List (Option String) → List (Option String)
  advance [] = []
  advance (x ∷ xs) = xs

  -- `urls` moves on if there is another mail to come and its URL is not NULL.
  unfoldable pub advance_urls : ℕ → List (Option String) → Option (List (Option String))
  advance_urls left urls =
      let moved = first (advance urls) >>= λ u. some (if is_some u then advance urls else urls) in
      if left == 0 then some urls else moved

  -- A mail with all its parts.
  unfoldable pub mail_of :
      Option String → Option String → Option String → Option String → Option Mail
  unfolding wrap_mail_address
  mail_of subject from to url = from >>= λ f. to >>= λ t. subject >>= λ s. url >>= λ u.
      some (record {
        url_data = u;
        sender = wrap_mail_address f;
        recipient = wrap_mail_address t;
        subject = s;
      })

  -- The loop. The pointers move on behind a mail with all its parts, but for that to the subjects: the
  -- statement `subject++` moves the local variable.
  unfoldable pub collect : ℕ → Columns → List Mail → Option (List Mail)
  unfolding mail_of advance_urls
  collect zero C mails = some mails
  collect (suc left) C mails = first C.froms >>= λ from. first C.tos >>= λ to.
      first C.subjects >>= λ subject. first C.urls >>= λ url.
      let kept = collect left C mails in
      let moved : Mail → Option (List Mail) = λ mail. advance_urls left C.urls >>= λ us.
      collect left (record C { froms = advance C.froms; tos = advance C.tos; urls = us })
        (mails ++ (mail ∷ [])) in
      elim (mail_of subject from to url) [ none ↦ kept | some mail ↦ moved mail ]

  -- Pointers to the arrays, each NULL or not; that to the recipients is read without a test. The result
  -- is the signal MailsReceived, if it is emitted.
  unfoldable pub notify_emails :
      ℕ
      → Bool
      → Option (List (Option String))
      → Option (List (Option String))
      → Option (List (Option String))
      → Option (List (Option String))
      → Option (Option (List Mail))
  unfolding collect
  notify_emails count detailed (some subjects) (some froms) (some tos) (some urls) =
      let mails =
        collect count (record { subjects = subjects; froms = froms; tos = tos; urls = urls }) [] in
      let signal = mails >>= λ ms. some (some ms) in if detailed then signal else some none
  notify_emails count detailed (some subjects) (some froms) none (some urls) =
      if not detailed then some none else if count == 0 then some (some []) else none
  notify_emails count detailed none _ _ _ = some none
  notify_emails count detailed (some _) none _ _ = some none
  notify_emails count detailed (some _) (some _) _ none = some none

  unfoldable pub notify_email :
      Option String → Option String → Option String → Option String → Option (Option (List Mail))
  unfolding notify_emails
  notify_email subject from to url =
      notify_emails 1 true (some (subject ∷ [])) (some (from ∷ [])) (some (to ∷ []))
        (some (url ∷ []))

-- RequestMailURL: the URL, the method GET (0) and no data to post.
unfoldable pub request_mail_url : UrlData → (String × ℕ) ⊎ Error
request_mail_url (string_value url) = inl (url, 0)
request_mail_url other_value = inr invalid_argument

unfoldable pub request_inbox_url : Error
request_inbox_url = not_implemented

-- The properties of the interface; MailNotificationFlags has the flags EMITS_MAILS_RECEIVED and
-- SUPPORTS_REQUEST_MAIL_URL.
pub data MailProperty : Type 0 where
  mail_notification_flags unread_mail_count unread_mails mail_address unknown_property :
      MailProperty

-- A value of a property: a number, mails, or a text.
pub data Value : Type 0 where
  number : ℕ → Value
  mails_value : List Mail → Value
  text_value : String → Value

-- `none` is the failed assertion.
unfoldable pub properties_getter : Texts → String → String → MailProperty → Option Value
unfolding get_email
properties_getter T username protocol mail_notification_flags = some (number 20)
properties_getter T username protocol unread_mail_count = some (number 0)
properties_getter T username protocol unread_mails = some (mails_value [])
properties_getter T username protocol mail_address =
    some (text_value (get_email T username protocol))
properties_getter T username protocol unknown_property = none
