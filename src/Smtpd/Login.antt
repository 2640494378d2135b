-- ===== src/Smtpd/Login.antt =====
-- The server side of SASL LOGIN: `loginServer` of internal/smtpd/smtpd.go. The callback is the
-- check of a user name and a password, with a state that it may change.
use cloudpost.Prelude.{Bool, [], false, true}
use cloudpost.Text.{Text, codes}

pub data Phase : Type 0 where
  ask_user ask_password spent : Phase

pub record LoginServer : Type 0 where
  pub phase : Phase
  pub user : Text

abbrev pub fresh_login : LoginServer
fresh_login = record { phase = ask_user; user = [] }

-- What Next answers: a challenge, the end, or an error.
pub data Challenge : Type 0 where
  prompt : Text → Challenge
  finished refused unexpected : Challenge

abbrev pub verdict : Bool → Challenge
verdict true = finished
verdict false = refused

module _ {ℓ} {W : Type ℓ} (callback : W → Text → Text → W × Bool) where
  abbrev pub next_in : W → Text → Text → Phase → W × (LoginServer × Challenge)
  next_in w name response ask_user =
      (w, (record { phase = ask_password; user = response }, prompt (codes "Password:")))
  next_in w name response ask_password =
      let r = callback w name response in
      (r.0, (record { phase = spent; user = name }, verdict r.1))
  next_in w name response spent = (w, (record { phase = spent; user = name }, unexpected))

  unfoldable pub next : W → LoginServer → Text → W × (LoginServer × Challenge)
  next w ls response = next_in w ls.user response ls.phase
