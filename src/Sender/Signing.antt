-- ===== src/Sender/Signing.antt =====
-- The key cache does not show: what is signed, and how.
use cloudpost.Prelude.{
  Bool, Bool-cases, Option, ap, false, if◌then◌else◌, inl, inr, none, refl, some, sym, ◌>>=◌, ◌∙◌,
  ◌≡◌,
}
use cloudpost.Text.{Text, eqb, eqb_iff}
use cloudpost.Installation.Config.{Config}
use cloudpost.Sender.Dkim.{
  KeyCache, Signer, dkim_sign, load_key, or_unsigned, parsed, sign_with, signs,
}

-- The cache holds what the reader of keys gives.
abbrev pub IsCache : Signer → KeyCache → Type 0
IsCache signer none = Unit
IsCache signer (some (pem, key)) = signer.parse_key pem ≡ some key

parsed-IsCache :
    (signer : Signer) (cache : KeyCache) (pem : Text) (o : Option Text)
    → signer.parse_key pem ≡ o
    → IsCache signer cache
    → IsCache signer (parsed signer cache pem o).0 × ((parsed signer cache pem o).1 ≡ o)
parsed-IsCache signer cache pem none e c = (c, refl)
parsed-IsCache signer cache pem (some key) e c = (e, refl)

load_key-IsCache :
    (signer : Signer) (cache : KeyCache) (pem : Text)
    → IsCache signer cache
    → IsCache signer (load_key signer cache pem).0
      × ((load_key signer cache pem).1 ≡ signer.parse_key pem)
unfolding load_key
load_key-IsCache signer none pem c = parsed-IsCache signer none pem _ refl c
load_key-IsCache signer (some (old, key)) pem c = elim (Bool-cases (eqb old pem)) [
  | inl e ↦ rw e (c, sym c ∙ ap signer.parse_key ((eqb_iff old pem).0 e))
  | inr e ↦ rw e (parsed-IsCache signer (some (old, key)) pem _ refl c)
]

-- What signing gives with no cache.
abbrev pub signed_text : Signer → Config → Text → Text × Bool
signed_text signer cfg raw = or_unsigned raw (
    signer.parse_key cfg.dkim_key_pem >>= λ key.
    signer.sign cfg.primary_domain cfg.dkim_selector key raw)

sign_with-IsCache :
    (signer : Signer) (cfg : Config) (raw : Text) (p : KeyCache × Option Text)
    → p.1 ≡ signer.parse_key cfg.dkim_key_pem
    → IsCache signer p.0
    → IsCache signer (sign_with signer cfg raw p).0
      × ((sign_with signer cfg raw p).1 ≡ signed_text signer cfg raw)
sign_with-IsCache signer cfg raw (cache, none) e c = (c, rw⁻¹ e refl)
sign_with-IsCache signer cfg raw (cache, some key) e c = (c, rw⁻¹ e refl)

-- With a cache that holds what the key reader gave, a message is signed with the configured key
-- when signing is on and the sender's domain is the primary one, and is left byte for byte when
-- not, or when the key cannot be read or the signer fails; the cache stays right.
pub dkim_sign_lem :
    (signer : Signer) (cfg : Config) (cache : KeyCache) (from raw : Text)
    → IsCache signer cache
    → IsCache signer (dkim_sign signer (some cfg) cache from raw).0
      × ((dkim_sign signer (some cfg) cache from raw).1
          ≡ (if signs cfg from then signed_text signer cfg raw else (raw, false)))
unfolding dkim_sign
dkim_sign_lem signer cfg cache from raw c = elim (Bool-cases (signs cfg from)) [
  | inl e ↦
      let (still, key) = load_key-IsCache signer cache cfg.dkim_key_pem c in
      rw e (sign_with-IsCache signer cfg raw (load_key signer cache cfg.dkim_key_pem) key still)
  | inr e ↦ rw e (c, refl)
]
