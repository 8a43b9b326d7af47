-- ===== src/Grants/Monad.antt =====
-- The state that a token request acts on, and actions that may end the request early. What an action
-- wrote before it ends the request stays written.
use nanoidp.Prelude.{Bool, true, false}
use nanoidp.AuthCode.{AuthCodeStore}
use nanoidp.DeviceCode.{DeviceCodeStore}
use nanoidp.Revocation.{RevocationStore}
use nanoidp.AuditLog.{AuditLog}
use nanoidp.Response.{OAuthError}

-- The process-wide singletons.
pub record IdpState : Type 0 where
  pub codes : AuthCodeStore
  pub devices : DeviceCodeStore
  pub revocations : RevocationStore
  pub audit : AuditLog

-- How an action ends: it hands a value on, it answers the request, or it raises (a 500).
pub data Step {ℓ} (A : Type ℓ) : Type ℓ where
  next : A → Step A
  answer : OAuthError → Step A
  raised : Step A

abbrev pub Action : Type 0 → Type 0
Action A = IdpState → IdpState × Step A

abbrev pub continue : {A B : Type 0} → Step A → (A → Action B) → Action B
continue (next a) f s = f a s
continue (answer e) f s = (s, answer e)
continue raised f s = (s, raised)

infixl 5 ◌>>=◌ ◌>>◌
abbrev pub ◌>>=◌ : {A B : Type 0} → Action A → (A → Action B) → Action B
◌>>=◌ m f s = let (s', r) = m s in continue r f s'

abbrev pub ◌>>◌ : {B : Type 0} → Action (Unit {0}) → Action B → Action B
m >> n = m >>= λ _. n

abbrev pub pure : {A : Type 0} → A → Action A
pure a s = (s, next a)

abbrev pub stop : {A : Type 0} → OAuthError → Action A
stop e s = (s, answer e)

abbrev pub raise : {A : Type 0} → Action A
raise s = (s, raised)

-- `if not b: <handler>`
abbrev pub require : Bool → Action (Unit {0}) → Action (Unit {0})
require true handler s = (s, next tt)
require false handler s = handler s
