-- ===== src/Applier/Monad.antt =====
-- What the applier works on, and its computations: an error keeps what was done before it.
use trilithon.Base.{String, List, Result, ok, err}
use trilithon.Model.Json.{Value}
use trilithon.Storage.Sqlite.{Database}
use trilithon.Applier.Types.{AuditAppend, ApplyError}

-- The database, the configuration that Caddy runs, what was handed to the audit writer, the last
-- first, and the host names that an observer of TLS was started for, the last first.
pub record World : Type 0 where
  pub db : Database
  pub caddy : Value
  pub audit : List AuditAppend
  pub observed : List (List String)

abbrev pub M : Type 0 → Type 0
M A = World → World × Result ApplyError A

abbrev pub continue :
    {A B : Type 0} → World × Result ApplyError A → (A → M B) → World × Result ApplyError B
continue (w, ok a) f = f a w
continue (w, err e) f = (w, err e)

infixl 5 ◌>>=◌ ◌>>◌
abbrev pub ◌>>=◌ : {A B : Type 0} → M A → (A → M B) → M B
◌>>=◌ m f w = continue (m w) f

abbrev pub ◌>>◌ : {B : Type 0} → M (Unit {0}) → M B → M B
m >> k = m >>= λ _. k

abbrev pub pure : {A : Type 0} → A → M A
pure a w = (w, ok a)

abbrev pub fail_with : {A : Type 0} → ApplyError → M A
fail_with e w = (w, err e)

-- `result.map_err(f)?`
abbrev pub lift {ℓ} : {E : Type ℓ} {A : Type 0} → (E → ApplyError) → Result E A → M A
lift f (ok a) w = (w, ok a)
lift f (err e) w = (w, err (f e))
