-- ===== src/Protocol/Security.antt =====
-- src/protocol.c: the two parameters that stand for connection_security.
use telepathy_haze.Account.{Value, lookup_param}
use telepathy_haze.Prelude.{eq_iff, inr, inl, arith, String, some, ◌⊎◌, List, ◌≡◌}
use telepathy_haze.Protocol.{bool_spec, connection_security, security_defaults, asv_boolean}

-- Where a protocol has one of the three values as the default of connection_security, and the client
-- leaves both parameters at the defaults that the fixup gives them, then connection_security is that
-- value.
pub defaults-security :
    (cs : String) (asv : List (String × Value))
    → (cs ≡ "old_ssl") ⊎ (cs ≡ "require_tls") ⊎ (cs ≡ "opportunistic_tls")
    → lookup_param "old-ssl" asv ≡ (bool_spec "old-ssl" (security_defaults (some cs)).0).default
    → lookup_param "require-encryption" asv
      ≡ (bool_spec "require-encryption" (security_defaults (some cs)).1).default
    → connection_security asv ≡ cs
unfolding connection_security security_defaults asv_boolean
defaults-security cs asv (inl e) p q = ground (arith, e, p, q, eq_iff cs "old_ssl")
defaults-security cs asv (inr (inl e)) p q =
    ground (arith, e, p, q, eq_iff cs "old_ssl", eq_iff cs "require_tls")
defaults-security cs asv (inr (inr e)) p q =
    ground
      (arith, e, p, q, eq_iff cs "old_ssl", eq_iff cs "require_tls", eq_iff cs "opportunistic_tls")
