-- ===== src/Prelude/Program.antt =====
-- A program that may write diagnostics to standard error and may stop with a failure status.
-- `exit(EXIT_FAILURE)` and `return 1` of a `main` are both `failed`; a `perror` that the code
-- passes over is a line of the log. Text after the fixed part of a message (`strerror`) is left
-- out.
use Prim.Native.String.{String}
use mathlib.Core.Path.{◌≡◌, refl, ap}
use mathlib.Core.Bool.{Bool, true, false}
use mathlib.Core.List.{List, [], ◌∷◌, ◌++◌}

pub data Result {ℓ} (A : Type ℓ) : Type ℓ where
  finished : A → Result A
  failed : Result A

pub record Program {ℓ} (A : Type ℓ) : Type ℓ where
  pub stderr : List String
  pub result : Result A

abbrev pub pure {ℓ} : {A : Type ℓ} → A → Program A
pure a = record { stderr = []; result = finished a }

abbrev after {ℓ κ} :
    {A : Type ℓ} {B : Type κ} → List String → Result A → (A → Program B) → Program B
after log (finished a) f = record { stderr = log ++ (f a).stderr; result = (f a).result }
after log failed f = record { stderr = log; result = failed }

infixl 5 ◌>>=◌ ◌>>◌
abbrev pub ◌>>=◌ {ℓ κ} : {A : Type ℓ} {B : Type κ} → Program A → (A → Program B) → Program B
m >>= f = after m.stderr m.result f

abbrev pub ◌>>◌ {ℓ} : {B : Type ℓ} → Program (Unit {0}) → Program B → Program B
m >> k = m >>= λ _. k

-- A message, and `exit(EXIT_FAILURE)`.
abbrev pub die {ℓ} : {A : Type ℓ} → String → Program A
die message = record { stderr = message ∷ []; result = failed }

-- `if (call != 0) { perror(message); exit(EXIT_FAILURE); }`, given whether the call succeeded.
abbrev pub require : Bool → String → Program (Unit {0})
require true message = pure tt
require false message = die message

-- `if (call != 0) perror(message);`
abbrev pub warn_unless : Bool → String → Program (Unit {0})
warn_unless true message = pure tt
warn_unless false message = record { stderr = message ∷ []; result = finished tt }

-- A warning leaves the result to what follows it.
pub result-warn_unless {ℓ} :
    {A : Type ℓ} (b : Bool) (message : String) (p : Program A)
    → (warn_unless b message >> p).result ≡ p.result
result-warn_unless true message p = refl
result-warn_unless false message p = refl

-- A step that finishes hands over to the next.
pub bind_finished {ℓ κ} :
    {A : Type ℓ} {B : Type κ} (m : Program A) (f : A → Program B) (a : A)
    → m.result ≡ finished a
    → (m >>= f).result ≡ (f a).result
bind_finished m f a e = ap (λ r. (after m.stderr r f).result) e
