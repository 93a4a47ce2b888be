-- ===== src/ConnectionError.antt =====
-- The reasons of libpurple for the end of a connection (src/connection.c: map_purple_error_to_tp).
use telepathy_haze.Prelude.{
  Bool, ap, ◌∙◌, if◌then◌else◌, true, ◌≡◌, refl, false, sym, String, ℕ, str_eq,
}

-- PurpleConnectionError, and a code that is none of them
pub data PurpleError : Type 0 where
  network_error invalid_username authentication_failed authentication_impossible : PurpleError
  no_ssl_support encryption_error name_in_use invalid_settings : PurpleError
  cert_not_provided cert_untrusted cert_expired cert_not_activated : PurpleError
  cert_hostname_mismatch cert_fingerprint_mismatch cert_self_signed : PurpleError
  cert_other_error other_error : PurpleError
  invalid_code : ℕ → PurpleError

-- TpConnectionStatusReason
pub data Reason : Type 0 where
  none_specified network authentication encryption in_use : Reason
  not_provided untrusted expired not_activated : Reason
  hostname_mismatch fingerprint_mismatch self_signed cert_other : Reason

-- The reason and the name of the D-Bus error, less its prefix "org.freedesktop.Telepathy.Error.".
unfoldable pub map_purple_error_to_tp : PurpleError → Bool → Reason × String
map_purple_error_to_tp network_error while_connecting =
    (network, if while_connecting then "ConnectionFailed" else "ConnectionLost")
map_purple_error_to_tp authentication_failed _ = (authentication, "AuthenticationFailed")
map_purple_error_to_tp invalid_username _ = (authentication, "AuthenticationFailed")
map_purple_error_to_tp authentication_impossible _ = (authentication, "AuthenticationFailed")
map_purple_error_to_tp invalid_settings _ = (authentication, "AuthenticationFailed")
map_purple_error_to_tp other_error _ = (authentication, "AuthenticationFailed")
map_purple_error_to_tp no_ssl_support _ = (encryption, "EncryptionNotAvailable")
map_purple_error_to_tp name_in_use while_connecting =
    (in_use, if while_connecting then "AlreadyConnected" else "ConnectionReplaced")
map_purple_error_to_tp cert_other_error _ = (cert_other, "Cert.Invalid")
map_purple_error_to_tp encryption_error _ = (encryption, "EncryptionError")
map_purple_error_to_tp cert_not_provided _ = (not_provided, "Cert.NotProvided")
map_purple_error_to_tp cert_untrusted _ = (untrusted, "Cert.Untrusted")
map_purple_error_to_tp cert_expired _ = (expired, "Cert.Expired")
map_purple_error_to_tp cert_not_activated _ = (not_activated, "Cert.NotActivated")
map_purple_error_to_tp cert_hostname_mismatch _ = (hostname_mismatch, "Cert.HostnameMismatch")
map_purple_error_to_tp cert_fingerprint_mismatch _ =
    (fingerprint_mismatch, "Cert.FingerprintMismatch")
map_purple_error_to_tp cert_self_signed _ = (self_signed, "Cert.SelfSigned")
map_purple_error_to_tp (invalid_code _) _ = (none_specified, "Disconnected")

-- The reason that belongs to an error name.
reason_of : String → Reason
reason_of name =
    if str_eq name "ConnectionFailed"
    then network
    else if str_eq name "ConnectionLost"
    then network
    else if str_eq name "AuthenticationFailed"
    then authentication
    else if str_eq name "EncryptionNotAvailable"
    then encryption
    else if str_eq name "AlreadyConnected"
    then in_use
    else if str_eq name "ConnectionReplaced"
    then in_use
    else if str_eq name "Cert.Invalid"
    then cert_other
    else if str_eq name "EncryptionError"
    then encryption
    else if str_eq name "Cert.NotProvided"
    then not_provided
    else if str_eq name "Cert.Untrusted"
    then untrusted
    else if str_eq name "Cert.Expired"
    then expired
    else if str_eq name "Cert.NotActivated"
    then not_activated
    else if str_eq name "Cert.HostnameMismatch"
    then hostname_mismatch
    else if str_eq name "Cert.FingerprintMismatch"
    then fingerprint_mismatch
    else if str_eq name "Cert.SelfSigned"
    then self_signed
    else none_specified

reason_of_error :
    (p : PurpleError) (w : Bool)
    → reason_of (map_purple_error_to_tp p w).1 ≡ (map_purple_error_to_tp p w).0
unfolding map_purple_error_to_tp reason_of
reason_of_error network_error true = refl
reason_of_error network_error false = refl
reason_of_error invalid_username w = refl
reason_of_error authentication_failed w = refl
reason_of_error authentication_impossible w = refl
reason_of_error no_ssl_support w = refl
reason_of_error encryption_error w = refl
reason_of_error name_in_use true = refl
reason_of_error name_in_use false = refl
reason_of_error invalid_settings w = refl
reason_of_error cert_not_provided w = refl
reason_of_error cert_untrusted w = refl
reason_of_error cert_expired w = refl
reason_of_error cert_not_activated w = refl
reason_of_error cert_hostname_mismatch w = refl
reason_of_error cert_fingerprint_mismatch w = refl
reason_of_error cert_self_signed w = refl
reason_of_error cert_other_error w = refl
reason_of_error other_error w = refl
reason_of_error (invalid_code n) w = refl

-- Of two ends of connections that are told by the same error name, the reasons are the same, whether
-- each came while connecting or not.
pub error-reason :
    (p q : PurpleError) (w v : Bool)
    → (map_purple_error_to_tp p w).1 ≡ (map_purple_error_to_tp q v).1
    → (map_purple_error_to_tp p w).0 ≡ (map_purple_error_to_tp q v).0
error-reason p q w v e = sym (reason_of_error p w) ∙ ap reason_of e ∙ reason_of_error q v
