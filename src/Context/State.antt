-- ===== src/Context/State.antt =====
-- The members of `ThreadContext`, and `issueRequestID`.
use veoffload.Base.{
  ℕ, zero, suc, ◌+◌, ◌-◌, ◌^◌, Bool, true, false, Option, none, some, List, [], ◌∷◌, ◌==◌,
  if◌then◌else◌, u64,
}
use veoffload.Queues.Comm.{CommQueue, new_comm}

-- `enum veo_context_state`.
pub data ContextState : Type 0 where
  state_unknown state_running state_syscall state_blocked state_exit : ContextState

abbrev pub is_exit : ContextState → Bool
is_exit state_unknown = false
is_exit state_running = false
is_exit state_syscall = false
is_exit state_blocked = false
is_exit state_exit = true

-- The handler of a command, with what its closure captures. An argument object is captured by
-- reference: `args` names it. `close_task` captures the request ID.
pub data Task : Type 0 where
  call_task : (addr args : ℕ) → Task
  vh_task : (func arg : ℕ) → Task
  read_task : (dst src size : ℕ) → Task
  write_task : (dst src size : ℕ) → Task
  open_task : (addr args : ℕ) → Task
  close_task : (id : ℕ) → Task

-- `rem_reqid` is a set: the numbers of the list are distinct. The handles of the operating system and
-- of the VE are not members here: the calls that use them are parameters elsewhere.
pub record Context : Type 0 where
  pub state : ContextState
  pub is_main_thread : Bool
  pub seq_no : ℕ
  pub ve_sp : ℕ
  pub rem_reqid : List ℕ
  pub comq : CommQueue Task

-- The constructor. It does not set `ve_sp`, which is written at the first block request.
abbrev pub new_context : Bool → Context
new_context is_main = record {
  state = state_unknown;
  is_main_thread = is_main;
  seq_no = 0;
  ve_sp = 0;
  rem_reqid = [];
  comq = new_comm;
}

abbrev pub request_id_invalid : ℕ
request_id_invalid = 2 ^ 64 - 1

unfoldable pub contains : ℕ → List ℕ → Bool
contains id [] = false
contains id (i ∷ is) = if i == id then true else contains id is

-- `std::unordered_set::insert`.
unfoldable pub insert : ℕ → List ℕ → List ℕ
unfolding contains
insert id ids = if contains id ids then ids else id ∷ ids

-- `std::unordered_set::erase`: the number of elements removed, and the rest.
unfoldable pub erase : ℕ → List ℕ → ℕ × List ℕ
erase id [] = (0, [])
erase id (i ∷ is) = if i == id then (1, is) else ((erase id is).0, i ∷ (erase id is).1)

-- The loop of `issueRequestID`, on fuel: the number taken and the next one.
unfoldable pub fetch_id : ℕ → ℕ → Option (ℕ × ℕ)
fetch_id zero seq = none
fetch_id (suc fuel) seq =
    let again = fetch_id fuel (u64 (seq + 1)) in
    if seq == request_id_invalid then again else some (seq, u64 (seq + 1))

-- `issueRequestID`. One number is refused, so two rounds are enough.
unfoldable pub issue_request_id : Context → Option (ℕ × Context)
unfolding fetch_id
issue_request_id ctx = elim (fetch_id 2 ctx.seq_no) [
  | none ↦ none
  | some (id, seq) ↦ some (id, record ctx { seq_no = seq; rem_reqid = insert id ctx.rem_reqid })
]
