-- ===== src/Witnesses.antt =====
-- The theorems on states and their bytes on concrete inputs, crates/tcb/src/state.rs and
-- crates/tcb/src/deterministic.rs.
pub mod Audits
pub mod Jsons
pub mod Domains
pub mod Rules
pub mod Randoms
pub mod Queues
pub mod Machine
pub mod Primitives
use evorule_tcb.Prelude.{
  true, ◌+◌, ◌≤◌, ◌<◌, String, ◌≡◌, refl, ◌≢◌, ◌⊎◌, none, some, [], ◌∷◌, map, arith, pos, eq_iff,
}
use evorule_tcb.Value.Data.{null, integer, string, list, object, nil, cons, Entries, end, entry}
use evorule_tcb.Value.ImMap
use evorule_tcb.Error.{path_depth_exceeded, ok, err}
use evorule_tcb.State.{State, max_path_depth, get_path}
use evorule_tcb.State
use evorule_tcb.State.Path.{split_path, parse_usize}
use evorule_tcb.State.SetPath.{set_path}
use evorule_tcb.State.SetPath.Laws.{parts_count, names_usize_max, Succeeds, set_path_outcome}
use evorule_tcb.State.SetPath.ReadBack.{AreKeys, NoList, set_path-get_path}
use evorule_tcb.Deterministic.Encode.{concat_map, value_to_bytes}
use evorule_tcb.State.Exec.{update_exec_field, exec_field, update_exec_field-unknown}
use evorule_tcb.ExecContext
use evorule_tcb.ExecCtlCtx
use evorule_tcb.ExecCtlCtx.{ExecCtlCtx, enter, exit}
use evorule_tcb.ExecCtlCtx.Laws.{Runs, idle, nested, Balanced, Runs-Balanced}
use evorule_tcb.Deterministic.OrderFree.{SameUpToOrder, objects, swap, value_to_bytes-SameUpToOrder}
use evorule_tcb.Deterministic.Injective.{All, IsWire, canonical, hashed_bytes-injective}

abbrev pub port_entries : Entries
port_entries = entry "port" (integer (pos 80)) (entry "tags" (list (cons (string "a") nil)) end)

-- The same map, iterated in the other order.
abbrev port_swapped : Entries
port_swapped = entry "tags" (list (cons (string "a") nil)) (entry "port" (integer (pos 80)) end)

abbrev pub server : State
server = record { data_map = entry "server" (object port_entries) end; version = 3 }

entries_fit : All IsWire (object port_entries ∷ null ∷ [])
unfolding ImMap.len
entries_fit = ground arith

swapped_fit : All IsWire (object port_swapped ∷ null ∷ [])
unfolding ImMap.len
swapped_fit = ground arith

same_bytes :
    concat_map value_to_bytes (object port_entries ∷ null ∷ [])
    ≡ concat_map value_to_bytes (object port_swapped ∷ null ∷ [])
unfolding value_to_bytes
same_bytes = refl

hashed_bytes-injective_example :
    map (canonical 129) (object port_entries ∷ null ∷ [])
    ≡ map (canonical 129) (object port_swapped ∷ null ∷ [])
hashed_bytes-injective_example =
    hashed_bytes-injective (object port_entries ∷ null ∷ []) (object port_swapped ∷ null ∷ [])
      entries_fit swapped_fit same_bytes

split_server : split_path "server.port" ≡ "server" ∷ "port" ∷ []
unfolding split_path
split_server = refl

server-AreKeys : AreKeys ("server" ∷ "port" ∷ [])
unfolding parse_usize
server-AreKeys = (refl, (refl, tt))

server-NoList : NoList ("server" ∷ "port" ∷ []) server.data_map
unfolding ImMap.get
server-NoList = tt

set_path-get_path_example :
    (s' : State) × (set_path server "server.port" (integer (pos 81)) ≡ some (ok s'))
    × (get_path s' "server.port" ≡ some (integer (pos 81)))
    × ((j : String) → "server" ≢ j → State.get s' j ≡ State.get server j)
    × (s'.version ≡ 3 + 1)
set_path-get_path_example =
    set_path-get_path "server.port" "server" ("port" ∷ []) split_server server (integer (pos 81))
      server-AreKeys server-NoList (omega arith)

set_path_outcome_example :
    ((max_path_depth < parts_count "a.b")
      × (set_path server "a.b" null
          ≡ some (err (path_depth_exceeded (parts_count "a.b") max_path_depth))))
    ⊎ ((parts_count "a.b" ≤ max_path_depth)
        × (Succeeds server (set_path server "a.b" null)
            ⊎ ((set_path server "a.b" null ≡ none) × (names_usize_max "a.b" ≡ true))))
set_path_outcome_example = set_path_outcome server "a.b" null

port_SameUpToOrder : SameUpToOrder (object port_entries) (object port_swapped)
port_SameUpToOrder = objects (swap (λ e. cc ((eq_iff "port" "tags").1 e)))

value_to_bytes-SameUpToOrder_example :
    value_to_bytes (object port_entries) ≡ value_to_bytes (object port_swapped)
value_to_bytes-SameUpToOrder_example =
    value_to_bytes-SameUpToOrder (object port_entries) (object port_swapped) port_SameUpToOrder

update_exec_field-unknown_example :
    exec_field (update_exec_field server "__original_metadata" null) "__original_metadata" ≡ none
update_exec_field-unknown_example =
    update_exec_field-unknown server "__original_metadata" "__original_metadata" null refl

abbrev fresh : ExecCtlCtx
fresh = record { depth = 0; max_depth = 2; tick = 0; instruction_count = 0; max_instructions = 5 }

abbrev once : ExecCtlCtx
once = record fresh { depth = 1; instruction_count = 1 }

abbrev twice : ExecCtlCtx
twice = record fresh { depth = 2; instruction_count = 2 }

-- An execution with another one inside.
two_runs : Runs fresh (record fresh { instruction_count = 2 }) 2
unfolding enter exit
two_runs = nested {inside = once} refl (nested {inside = twice} refl idle idle) idle

Runs-Balanced_example : Balanced fresh (record fresh { instruction_count = 2 }) 2
Runs-Balanced_example =
    Runs-Balanced (record { depth_fits = omega arith; count_fits = omega arith }) two_runs
