-- ===== src/Device/WebSocketClient/Held.antt =====
-- What the calls of websocketclient.c do to the client of the library, to the tree of the model and
-- to its text, and whether they keep to what the library and the C standard ask for.
use esp32_fl.Base.{
  ℕ, zero, suc, String, str_eq, Bool, true, false, Option, none, some, List, [], ◌∷◌, ◌>>=◌, ◌==◌,
  if◌then◌else◌,
}
use esp32_fl.Device.WebSocketClient.{
  Call, init, register_events, start, is_connected, send_text, stop, destroy, make_tree, print_tree,
  free_text, delete_tree,
}

-- The life of the client that was made last.
pub data Phase : Type 0 where
  absent : Phase
  initialised : ℕ → Phase
  running : ℕ → Phase
  halted : ℕ → Phase

-- What is held: the client, as many trees as are allocated, and the printed text, a pointer that
-- may be null.
pub record Held : Type 0 where
  pub phase : Phase
  pub trees : ℕ
  pub text : Option (Option String)

-- The library refuses each call on the null client, changes nothing and says that it is not
-- connected. Any other client must be the one of the phase.
abbrev of_client : Option ℕ → ℕ → Phase → Option Phase
of_client none c p = none
of_client (some d) c p = if d == c then some p else none

abbrev init_client : Option ℕ → Phase → Option Phase
init_client none p = some p
init_client (some c) absent = some (initialised c)
init_client (some c) (initialised d) = none
init_client (some c) (running d) = none
init_client (some c) (halted d) = none

abbrev register_client : Option ℕ → Phase → Option Phase
register_client none p = some p
register_client (some c) (initialised d) = of_client (some c) d (initialised d)
register_client (some c) absent = none
register_client (some c) (running d) = none
register_client (some c) (halted d) = none

abbrev start_client : Option ℕ → Phase → Option Phase
start_client none p = some p
start_client (some c) (initialised d) = of_client (some c) d (running d)
start_client (some c) absent = none
start_client (some c) (running d) = none
start_client (some c) (halted d) = none

abbrev use_client : Option ℕ → Phase → Option Phase
use_client none p = some p
use_client (some c) (running d) = of_client (some c) d (running d)
use_client (some c) absent = none
use_client (some c) (initialised d) = none
use_client (some c) (halted d) = none

abbrev stop_client : Option ℕ → Phase → Option Phase
stop_client none p = some p
stop_client (some c) (running d) = of_client (some c) d (halted d)
stop_client (some c) absent = none
stop_client (some c) (initialised d) = none
stop_client (some c) (halted d) = none

abbrev destroy_client : Option ℕ → Phase → Option Phase
destroy_client none p = some p
destroy_client (some c) (halted d) = of_client (some c) d absent
destroy_client (some c) absent = none
destroy_client (some c) (initialised d) = none
destroy_client (some c) (running d) = none

abbrev ask_client : Option ℕ → Bool → Phase → Option Phase
ask_client none true p = none
ask_client none false p = some p
ask_client (some c) b p = use_client (some c) p

abbrev in_phase : Option Phase → Held → Option Held
in_phase none h = none
in_phase (some p) h = some (record h { phase = p })

-- A text may be sent while it is held, and printed while none is, of a tree that is allocated;
-- `free` of a null pointer does nothing.
abbrev holds_text : String → Option (Option String) → Bool
holds_text t none = false
holds_text t (some none) = false
holds_text t (some (some u)) = str_eq t u

abbrev print_text : Option String → ℕ → Option (Option String) → Option (Option (Option String))
print_text printed zero t = none
print_text printed (suc n) none = some (some printed)
print_text printed (suc n) (some t) = none

abbrev one_less : ℕ → Option ℕ
one_less zero = none
one_less (suc n) = some n

-- One call, `none` where it is not allowed: in another phase or on another client, on a text that
-- is not held, on a tree that is not there.
unfoldable pub step_call : Call → Held → Option Held
step_call (init c) h = in_phase (init_client c h.phase) h
step_call (register_events c) h = in_phase (register_client c h.phase) h
step_call (start c) h = in_phase (start_client c h.phase) h
step_call (is_connected c b) h = in_phase (ask_client c b h.phase) h
step_call (send_text c t) h =
    if holds_text t h.text then in_phase (use_client c h.phase) h else none
step_call (stop c) h = in_phase (stop_client c h.phase) h
step_call (destroy c) h = in_phase (destroy_client c h.phase) h
step_call make_tree h = some (record h { trees = suc h.trees })
step_call (print_tree printed) h = do
  t ← print_text printed h.trees h.text
  some (record h { text = t })
step_call free_text h = do t ← h.text; some (record h { text = none })
step_call delete_tree h = do n ← one_less h.trees; some (record h { trees = n })

unfoldable pub run_calls : List Call → Held → Option Held
run_calls [] h = some h
run_calls (call ∷ calls) h = do h' ← step_call call h; run_calls calls h'
