-- ===== src/ExecCtlCtx/Laws.antt =====
-- Limits of the execution control context, crates/tcb/src/exec_ctl_ctx.rs: what `enter` admits, and
-- the calls of an executor that pairs every `enter` with an `exit`.
use evorule_tcb.Prelude.{ℕ, zero, ◌+◌, ◌≤◌, ◌<◌, ◌≡◌, refl, ◌↔◌, arith}
use evorule_tcb.Error.{ok}
use evorule_tcb.ExecCtlCtx.{ExecCtlCtx, enter, exit}

-- The counters are within their limits.
pub record IsWithin (c : ExecCtlCtx) : Type 0 where
  pub depth_fits : c.depth ≤ c.max_depth
  pub count_fits : c.instruction_count ≤ c.max_instructions

pub enter-IsWithin : (c c' : ExecCtlCtx) → IsWithin c → enter c ≡ ok c' → IsWithin c'
unfolding enter
enter-IsWithin c c' w h = ground arith

pub exit-IsWithin : (c : ExecCtlCtx) → IsWithin c → IsWithin (exit c)
unfolding exit
exit-IsWithin c w = ground arith

-- `enter` succeeds exactly below both limits; and then it moves both counters by one and no other field.
pub enter_iff :
    (c : ExecCtlCtx)
    → (enter c ≡ ok (record c { depth = c.depth + 1; instruction_count = c.instruction_count + 1 }))
      ↔ ((c.depth < c.max_depth) × (c.instruction_count < c.max_instructions))
unfolding enter
enter_iff c = ground arith

-- The calls of nested executions, one after the other: `enter`, the executions inside, `exit`.
-- The number counts the executions.
pub data Runs : ExecCtlCtx → ExecCtlCtx → ℕ → Type 0 where
  idle : {c : ExecCtlCtx} → Runs c c zero
  nested :
      {c inside left last : ExecCtlCtx} {m n : ℕ}
      → enter c ≡ ok inside
      → Runs inside left m
      → Runs (exit left) last n
      → Runs c last (1 + m + n)

-- What an execution that began in `c` and counted `n` instructions leaves behind in `d`.
pub record Balanced (c d : ExecCtlCtx) (n : ℕ) : Type 0 where
  pub same_depth : d.depth ≡ c.depth
  pub counted : d.instruction_count ≡ c.instruction_count + n
  pub same_max_depth : d.max_depth ≡ c.max_depth
  pub same_max_instructions : d.max_instructions ≡ c.max_instructions
  pub within : IsWithin d

Balanced-nested :
    (c inside left last : ExecCtlCtx) (m n : ℕ)
    → enter c ≡ ok inside
    → Balanced inside left m
    → Balanced (exit left) last n
    → Balanced c last (1 + m + n)
unfolding enter exit
Balanced-nested c inside left last m n h a b = record {
  same_depth = ground (arith, a.same_depth, b.same_depth);
  counted = ground (arith, a.counted, b.counted);
  same_max_depth = ground (arith, a.same_max_depth, b.same_max_depth);
  same_max_instructions = ground (arith, a.same_max_instructions, b.same_max_instructions);
  within = b.within;
}

-- Nested executions that begin within the limits end within them and at the depth they began at; the
-- instruction counter has grown by the number of executions, which is therefore at most
-- `max_instructions`, and the limits are unchanged.
pub Runs-Balanced : {c d : ExecCtlCtx} {n : ℕ} → IsWithin c → Runs c d n → Balanced c d n
Runs-Balanced {c} {d} {n} w idle = record {
  same_depth = refl;
  counted = omega arith;
  same_max_depth = refl;
  same_max_instructions = refl;
  within = w;
}
Runs-Balanced {c} {d} {n} w (nested {inside} {left} {m} {n = k} h r s) =
    let a = Runs-Balanced (enter-IsWithin c inside w h) r in
    Balanced-nested c inside left d m k h a (Runs-Balanced (exit-IsWithin left a.within) s)
