-- ===== src/Sender/Dkim.antt =====
-- When a message is signed: internal/sender/dkim.go. The reader of PEM keys and the signer are
-- arguments; the key cache is the PEM text and the key that it gave.
use cloudpost.Prelude.{
  Bool, Option, [], drop, false, if◌then◌else◌, is_nil, none, not, some, true, ◌&&◌, ◌+◌,
}
use cloudpost.Text.{Text, eqb, equal_fold, last_index_byte, lower, trim_space}
use cloudpost.Installation.Config.{Config}

pub record Signer : Type 0 where
  pub parse_key : Text → Option Text
  pub sign : Text → Text → Text → Text → Option Text

abbrev pub KeyCache : Type 0
KeyCache = Option (Text × Text)

unfoldable pub from_domain : Text → Text
unfolding last_index_byte lower trim_space
from_domain addr = elim (last_index_byte b'@' addr) [
  | none ↦ []
  | some i ↦ lower (trim_space (drop (i + 1) addr))
]

abbrev pub parsed : Signer → KeyCache → Text → Option Text → KeyCache × Option Text
parsed signer cache pem none = (cache, none)
parsed signer cache pem (some key) = (some (pem, key), some key)

-- The key of a PEM text, from the cache when it is the one read last.
unfoldable pub load_key : Signer → KeyCache → Text → KeyCache × Option Text
unfolding eqb
load_key signer none pem = parsed signer none pem (signer.parse_key pem)
load_key signer (some (old, key)) pem =
    if eqb old pem
    then (some (old, key), some key)
    else parsed signer (some (old, key)) pem (signer.parse_key pem)

abbrev pub or_unsigned : Text → Option Text → Text × Bool
or_unsigned raw none = (raw, false)
or_unsigned raw (some signed) = (signed, true)

abbrev pub sign_with : Signer → Config → Text → KeyCache × Option Text → KeyCache × (Text × Bool)
sign_with signer cfg raw (cache, none) = (cache, (raw, false))
sign_with signer cfg raw (cache, some key) =
    (cache, or_unsigned raw (signer.sign cfg.primary_domain cfg.dkim_selector key raw))

-- Signing is on and the sender's domain is the primary one.
unfoldable pub signs : Config → Text → Bool
unfolding equal_fold
signs cfg from =
    (cfg.dkim_enabled && (not (is_nil cfg.dkim_selector) && not (is_nil cfg.dkim_key_pem)))
    && (not (is_nil (from_domain from)) && equal_fold (from_domain from) cfg.primary_domain)

unfoldable pub dkim_sign :
    Signer → Option Config → KeyCache → Text → Text → KeyCache × (Text × Bool)
unfolding signs load_key
dkim_sign signer none cache from raw = (cache, (raw, false))
dkim_sign signer (some cfg) cache from raw =
    if signs cfg from
    then sign_with signer cfg raw (load_key signer cache cfg.dkim_key_pem)
    else (cache, (raw, false))
