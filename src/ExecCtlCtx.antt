-- ===== src/ExecCtlCtx.antt =====
-- The execution control context, crates/tcb/src/exec_ctl_ctx.rs: recursion depth, instruction
-- budget and logical tick. A method that takes `&mut self` returns the new context. The counters are
-- `usize` and `u64`; `enter` keeps depth and count within their limits, so that neither wraps around.
pub mod Laws
use evorule_tcb.Prelude.{ℕ, ◌+◌, ◌%◌, ◌^◌, ◌-◌, Bool, leb, if◌then◌else◌}
use evorule_tcb.Error.{depth_limit_exceeded, instruction_limit_exceeded, Result, ok, err}

abbrev pub default_max_depth : ℕ
default_max_depth = 256

abbrev pub default_max_instructions : ℕ
default_max_instructions = 1_000_000

pub record ExecCtlCtx : Type 0 where
  pub depth : ℕ
  pub max_depth : ℕ
  pub tick : ℕ
  pub instruction_count : ℕ
  pub max_instructions : ℕ

unfoldable pub new : ExecCtlCtx
new = record {
  depth = 0;
  max_depth = default_max_depth;
  tick = 0;
  instruction_count = 0;
  max_instructions = default_max_instructions;
}

unfoldable pub with_max_depth : ExecCtlCtx → ℕ → ExecCtlCtx
with_max_depth c max_depth = record c { max_depth = max_depth }

unfoldable pub with_max_instructions : ExecCtlCtx → ℕ → ExecCtlCtx
with_max_instructions c max_instructions = record c { max_instructions = max_instructions }

unfoldable pub with_initial_tick : ExecCtlCtx → ℕ → ExecCtlCtx
with_initial_tick c tick = record c { tick = tick }

unfoldable pub set_max_depth : ExecCtlCtx → ℕ → ExecCtlCtx
set_max_depth c max_depth = record c { max_depth = max_depth }

-- An error leaves the context as it was.
unfoldable pub enter : ExecCtlCtx → Result ExecCtlCtx
enter c =
    if leb c.max_depth c.depth
    then err (depth_limit_exceeded c.depth c.max_depth)
    else if leb c.max_instructions c.instruction_count
    then err (instruction_limit_exceeded c.instruction_count c.max_instructions)
    else ok (record c { depth = c.depth + 1; instruction_count = c.instruction_count + 1 })

-- `saturating_sub`
unfoldable pub exit : ExecCtlCtx → ExecCtlCtx
exit c = record c { depth = c.depth - 1 }

unfoldable pub next_tick : ExecCtlCtx → ℕ × ExecCtlCtx
next_tick c = (c.tick, record c { tick = (c.tick + 1) % 2 ^ 64 })

unfoldable pub is_budget_exhausted : ExecCtlCtx → Bool
is_budget_exhausted c = leb c.max_instructions c.instruction_count

unfoldable pub reset : ExecCtlCtx → ExecCtlCtx
reset c = record c { depth = 0; tick = 0; instruction_count = 0 }

unfoldable pub reset_depth : ExecCtlCtx → ExecCtlCtx
reset_depth c = record c { depth = 0 }

unfoldable pub reset_tick : ExecCtlCtx → ExecCtlCtx
reset_tick c = record c { tick = 0 }
