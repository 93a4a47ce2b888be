-- ===== src/Mail/Batches.antt =====
-- src/connection-mail.c: what is announced of several mails at once.
use mathlib.Core.List.{append-nil, append_assoc}
use telepathy_haze.Mail.{
  mail_of, Texts, Mail, wrap_mail_address, advance_urls, collect, notify_emails,
}
use telepathy_haze.Prelude.{
  ◌>>=◌, ◌∙◌, [], ap, ◌≡◌, ℕ, ◌∷◌, true, suc, none, zero, List, some, refl, Option, map, String,
  arith, length, sym, ◌++◌,
}
-- A mail with all its parts.
use telepathy_haze.Mail.{collect, mail_of, notify_emails, Texts, Mail, wrap_mail_address}
use telepathy_haze.Prelude.{
  map, zero, [], ◌≡◌, Option, none, suc, refl, ℕ, String, List, true, length, ◌∷◌, arith, ◌++◌,
  some,
}

pub record Row : Type 0 where
  pub subject_of : String
  pub from_of : String
  pub to_of : String
  pub url_of : String

module _ (T : Texts) where
  -- The mail that a row should give, and the one with another subject and URL.
  abbrev pub mail_with : String → String → Row → Mail
  mail_with subject url r = record {
    url_data = url;
    sender = wrap_mail_address T r.from_of;
    recipient = wrap_mail_address T r.to_of;
    subject = subject;
  }

  moved :
      (left : ℕ) (u : Option String) (v : String) (us : List (Option String))
      → advance_urls T (suc left) (u ∷ some v ∷ us) ≡ some (some v ∷ us)
  unfolding advance_urls
  moved left u v us = ground arith

  collect_rows :
      (rest : List (Option String)) (s : String) (rows : List Row) (mails : List Mail)
      → collect T
          (length rows)
          (record {
            subjects = some s ∷ rest;
            froms = map (λ r. some r.from_of) rows;
            tos = map (λ r. some r.to_of) rows;
            urls = map (λ r. some r.url_of) rows;
          })
          mails
        ≡ some (mails ++ map (λ r. mail_with s r.url_of r) rows)
  unfolding collect
  collect_rows rest s [] mails = ap some (sym (append-nil mails))
  collect_rows rest s (r ∷ []) mails = refl
  collect_rows rest s (r ∷ q ∷ rows) mails =
      let here = mail_with s r.url_of r in
      let next = collect_rows rest s (q ∷ rows) (mails ++ (here ∷ [])) in
      let joined = append_assoc mails (here ∷ []) (map (λ r. mail_with s r.url_of r) (q ∷ rows)) in
      ap
        (λ o. o >>= λ us.
          collect T (length (q ∷ rows))
            (record {
              subjects = some s ∷ rest;
              froms = map (λ x. some x.from_of) (q ∷ rows);
              tos = map (λ x. some x.to_of) (q ∷ rows);
              urls = us;
            })
            (mails ++ (here ∷ [])))
        (moved (length rows) (some r.url_of) q.url_of (map (λ x. some x.url_of) rows))
      ∙ next
      ∙ ap some joined

  -- Where several mails with all their parts arrive, the signal has one mail for each of
  -- them in their order, with its sender, recipient and URL; but each has the subject of the first mail.
  pub notify_emails-rows :
      (r : Row) (rows : List Row)
      → notify_emails T
          (length (r ∷ rows))
          true
          (some (map (λ q. some q.subject_of) (r ∷ rows)))
          (some (map (λ q. some q.from_of) (r ∷ rows)))
          (some (map (λ q. some q.to_of) (r ∷ rows)))
          (some (map (λ q. some q.url_of) (r ∷ rows)))
        ≡ some (some (map (λ q. mail_with r.subject_of q.url_of q) (r ∷ rows)))
  unfolding notify_emails
  notify_emails-rows r rows =
      ground (arith, collect_rows (map (λ q. some q.subject_of) rows) r.subject_of (r ∷ rows) [])

  stuck :
      (count : ℕ) (subject from to url : Option String) (ss fs ts us : List (Option String))
      (mails : List Mail)
      → mail_of T subject from to url ≡ none
      → collect T count
          (record { subjects = subject ∷ ss; froms = from ∷ fs; tos = to ∷ ts; urls = url ∷ us })
          mails
        ≡ some mails
  unfolding collect
  stuck zero subject from to url ss fs ts us mails e = refl
  stuck (suc left) subject from to url ss fs ts us mails e =
      ground (arith, e, stuck left subject from to url ss fs ts us mails e)

  -- Where the first mail has a part that is missing, none of the mails is announced, however many they are.
  pub notify_emails_stuck :
      (count : ℕ) (subject from to url : Option String) (ss fs ts us : List (Option String))
      → mail_of T subject from to url ≡ none
      → notify_emails T count true
          (some (subject ∷ ss))
          (some (from ∷ fs))
          (some (to ∷ ts))
          (some (url ∷ us))
        ≡ some (some [])
  unfolding notify_emails
  notify_emails_stuck count subject from to url ss fs ts us e =
      ground (arith, stuck count subject from to url ss fs ts us [] e)
