-- ===== src/Mail/Tests.antt =====
-- The theorems on mail at concrete mails.
use Prim.Native.String.{◌++◌ as str_append}
use telepathy_haze.Mail.{mail_of, Texts, notify_emails}
use telepathy_haze.Mail.Batches.{Row, mail_with, notify_emails_stuck, notify_emails-rows}
use telepathy_haze.Prelude.{◌≡◌, str_eq, true, ◌∷◌, some, none, refl, []}

abbrev texts : Texts
texts = record { has_at = λ s. str_eq s "bob@example.org"; append = str_append }

abbrev hello : Row
hello = record { subject_of = "Hello"; from_of = "bob@example.org"; to_of = "alice"; url_of = "/1" }

abbrev lunch : Row
lunch = record { subject_of = "Lunch"; from_of = "carol"; to_of = "alice"; url_of = "/2" }

notify_emails-rows_example :
    notify_emails texts 2 true
      (some (some "Hello" ∷ some "Lunch" ∷ []))
      (some (some "bob@example.org" ∷ some "carol" ∷ []))
      (some (some "alice" ∷ some "alice" ∷ []))
      (some (some "/1" ∷ some "/2" ∷ []))
    ≡ some (some (mail_with texts "Hello" "/1" hello ∷ mail_with texts "Hello" "/2" lunch ∷ []))
notify_emails-rows_example = notify_emails-rows texts hello (lunch ∷ [])

notify_emails_stuck_example :
    notify_emails texts 2 true
      (some (none ∷ some "Lunch" ∷ []))
      (some (some "bob@example.org" ∷ some "carol" ∷ []))
      (some (some "alice" ∷ some "alice" ∷ []))
      (some (some "/1" ∷ some "/2" ∷ []))
    ≡ some (some [])
unfolding mail_of
notify_emails_stuck_example =
    notify_emails_stuck texts 2 none (some "bob@example.org") (some "alice") (some "/1")
      (some "Lunch" ∷ []) (some "carol" ∷ []) (some "alice" ∷ []) (some "/2" ∷ []) refl
