-- ===== src/State/Run.antt =====
-- What a write to a path leaves behind, crates/tcb/src/state.rs: a state or an error, or nothing where a
-- loop of the write never ends.
use evorule_tcb.Prelude.{Option, none, some}
use evorule_tcb.Error.{Result, ok, err}
use evorule_tcb.State.{State}

abbrev pub Run : Type 0
Run = Option (Result State)

-- The `?` operator after a write.
infixl 5 ◌>>!◌
abbrev pub ◌>>!◌ : Run → (State → Run) → Run
none >>! next = none
some (ok s) >>! next = next s
some (err e) >>! next = some (err e)

-- The `?` operator after a computation that ends.
infixl 5 ◌>>?◌
abbrev pub ◌>>?◌ {ℓ} : {A : Type ℓ} → Result A → (A → Run) → Run
ok a >>? next = next a
err e >>? next = some (err e)
