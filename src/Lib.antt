-- ===== src/Lib.antt =====
-- The trusted computing base of EvoRule: values, their deterministic encoding, the state, domains, the
-- audit chain, and the registry of executors with dispatch, the while loop and the primitives.
--
-- Paths are from the root of the repository.
--
-- The program runs instructions on a state. A state (crates/tcb/src/state.rs) is a map from keys to
-- values with a version; system keys hold the execution context (`__exec__`) and the audit chain
-- (`__audit_chain`). Domains are predicates on states. The audit primitive `trace_step` derives a
-- record from the chain and the state, digests it with a key and appends it to the chain. Every digest
-- is taken over bytes that the deterministic encoder makes.
--
-- An instruction names its type. The registry (crates/tcb/src/instruction/registry.rs) finds the executor
-- of the type and runs it between `enter` and `exit` of the control context, which bounds the depth of
-- nested executions and their number; an instruction without an executor is expanded by the cases of the
-- state. Executors get the registry as a handle and call it back: `dispatch` looks an instruction up in a
-- table, `while_loop` runs a body and drains the queue of the context, and some primitives execute
-- instructions of their parameters.
--
-- The files, and the code that each one models:
--   Prelude            shared names, Boolean tests, `i64` and its bit pattern, the order of texts
--   Error              crates/tcb/src/error.rs, and `Result`
--   Value              crates/tcb/src/value.rs: the data (Data), maps (ImMap), accessors, equality,
--                      the conversions to and from JSON (Json)
--   Platform           the crates that the program uses, as records of functions
--   Deterministic      crates/tcb/src/deterministic.rs: `value_to_bytes` (Encode); facts on it in
--                      Bytes, Injective and OrderFree; the clock and the random numbers (Random)
--   State              crates/tcb/src/state.rs: lookup and update, paths (Path, SetPath), the context
--                      object (Exec)
--   ExecContext        crates/tcb/src/exec_context.rs
--   ExecCtlCtx         crates/tcb/src/exec_ctl_ctx.rs: depth, instruction budget, tick
--   Audit              crates/tcb/src/audit.rs: records, digests, the chain (Chain, Message, Codec);
--                      crates/tcb/src/primitive/audit_ops.rs (TraceStep)
--   Instruction        crates/tcb/src/rule.rs, `GenericInstruction`
--   Rule               crates/tcb/src/rule.rs, `Rule`; RuleCollection, its `RuleCollection`
--   Domain             crates/tcb/src/domain.rs: evaluation, its depth limit (Depth), the parser
--                      (Parse) and the dictionaries (Dict)
--   Engine             crates/tcb/src/instruction/mod.rs: outcomes and executors; the contract that
--                      executors keep (Contract), the order of outcomes by fuel (Fuel)
--   Registry           crates/tcb/src/instruction/registry.rs: entries and queries, the operations on the
--                      context (ContextOps), execution (Execute), the registry with every executor of
--                      crates/tcb/src/primitive/mod.rs and crates/tcb/src/control/mod.rs (Full)
--   Control            crates/tcb/src/control/dispatch.rs (Refs, Dispatch) and
--                      crates/tcb/src/control/while_loop.rs (WhileLoop)
--   Primitive          crates/tcb/src/primitive: queue_ops.rs with the check of an instruction's type of
--                      mod.rs (Queue), state_ops.rs (StateOps), compute_ops.rs (ComputeOps),
--                      domain_ops.rs (DomainOps), rule_ops.rs (RuleOps), error_ops.rs (ErrorOps),
--                      noop_ops.rs (Noop)
--   Witnesses          the theorems on concrete inputs
--
-- Conventions. A method that takes `&mut self` returns the new value. An `i64` is an integer of the
-- model, and `IsI64` says that it is in range; `u64`, `u32` and `usize` are natural numbers whose bound
-- is a hypothesis where it matters. The bits of an `i64` are `bits64` and back `of_bits64`. An `f64` is
-- its bit pattern, and its arithmetic is a parameter (`Floats`). An `im::HashMap` is the list of its
-- entries in the order in which it iterates; nothing that is read from one depends on that order but
-- what iterates over it, and the encoder sorts the entries first. Arithmetic on ticks, weights, versions
-- and random numbers wraps around, as in a release build (`wrap_i64`). Digests, hexadecimal and the JSON
-- text are parameters (`Crates`).
--
-- Fuel. `value_to_bytes_inner` and `contains_inner` count the levels that the source still admits, so
-- that their number is the limit of the source and not a bound of the model. `from_value_fuel` of
-- Domain.Parse has the height of the value as fuel, which is enough for every nested call; so have
-- `overlap_fuel` and `references_fuel`, the former the heights of both values. `resolve_refs_inner` and
-- the JSON conversions count the levels that the source admits. `execute` runs on fuel, since executors
-- call it back and an expansion can go on for ever; an outcome is `none` where the fuel has run out, and
-- where the padding of a list to the index `usize::MAX` never ends (State.Run). `drain` has one round for
-- each instruction that is left in the budget, and one more. The loop counts its steps down from its
-- limit.
--
-- An executor takes the control context and hands it back with its result. What primitives print (`describe`,
-- `position`, `debug` and `show` of `Registry`) and the explainers are parameters. A frozen registry ignores
-- a registration, as in a release build.
--
-- Not modelled: the text output of values and their derived serde form, the explainers of the
-- instructions, logging, and programs for benchmarks and examples.
pub mod Audit
pub mod Control
pub mod Deterministic
pub mod Domain
pub mod Engine
pub mod Error
pub mod ExecContext
pub mod ExecCtlCtx
pub mod Instruction
pub mod Platform
pub mod Prelude
pub mod Primitive
pub mod Registry
pub mod Rule
pub mod RuleCollection
pub mod State
pub mod Value
pub mod Witnesses
