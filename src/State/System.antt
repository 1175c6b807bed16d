-- ===== src/State/System.antt =====
-- The system keys and the user data of the state, crates/tcb/src/state.rs.
use evorule_tcb.Prelude.{ℕ, ◌+◌, String, List, if◌then◌else◌}
use evorule_tcb.Value.Data.{Value, Entries, end, entry}
use text.Mathlib.Text.{starts_with}
use evorule_tcb.Deterministic.Encode.{iter_sorted}
use evorule_tcb.ExecContext
use evorule_tcb.ExecContext.{ExecContext}
use evorule_tcb.State
use evorule_tcb.State.{State}

unfoldable pub with_exec_context : State → ExecContext → State
unfolding State.set ExecContext.to_value
with_exec_context s ctx = State.set s "__exec__" (ExecContext.to_value ctx)

unfoldable pub with_universe_rules : State → Value → State
unfolding State.set
with_universe_rules s rules = State.set s "__universe_rules__" rules

unfoldable pub with_audit_trace : State → Value → State
unfolding State.set
with_audit_trace s trace = State.set s "__audit_trace" trace

-- A map of the standard library, as the list of its entries.
unfoldable pub to_std_map : State → List (String × Value)
unfolding iter_sorted
to_std_map s = iter_sorted s.data_map

unfoldable pub count_user : Entries → ℕ
count_user end = 0
count_user (entry k v m) = let rest = count_user m in if starts_with k "__" then rest else 1 + rest

unfoldable pub user_data_count : State → ℕ
unfolding count_user
user_data_count s = count_user s.data_map
