-- ===== src/Control/WhileLoop/Limit.antt =====
-- The step limit of the loop, crates/tcb/src/control/while_loop.rs.
use evorule_tcb.Prelude.{ℕ, ◌^◌, ◌≤◌, ◌≡◌, refl, ◌⊎◌, inl, inr, some, arith, ℤ, pos, negsuc, IsI64}
use evorule_tcb.Value.Data.{integer}
use evorule_tcb.Value.ImMap
use evorule_tcb.Instruction.{GenericInstruction}
use evorule_tcb.Value.Accessors.{as_integer}
use evorule_tcb.Control.WhileLoop.{step_limit}

-- A `max_steps` that is not negative is cut at 100000; a negative one becomes a limit of at least 2^63
-- steps.
pub step_limit_lem :
    (i : GenericInstruction) (n : ℤ)
    → IsI64 n
    → ImMap.get i.params "max_steps" ≡ some (integer n)
    → ((k : ℕ) × (n ≡ pos k) × (step_limit i ≤ 100000) × (step_limit i ≤ k))
      ⊎ ((k : ℕ) × (n ≡ negsuc k) × (2 ^ 63 ≤ step_limit i))
unfolding step_limit as_integer
step_limit_lem i (pos k) b h = inl (k, refl, rw h (ground arith), rw h (ground arith))
step_limit_lem i (negsuc k) b h = inr (k, refl, rw h (ground arith))
