-- ===== src/Threads/System.antt =====
-- `n` client threads and the pseudo thread over one context.
use veoffload.Base.{ℕ, ◌<◌, [], false}
use veoffload.Context.State.{state_running, new_context}
use veoffload.Threads.Tally.{assign}
use veoffload.Threads.Moves.{Shared, Client, idle, Pseudo, first_run, ClientMove, PseudoMove}

-- An index from `n` on names no thread: it stays idle.
pub record System : Type 0 where
  pub shared : Shared
  pub clients : ℕ → Client
  pub pseudo : Pseudo

pub data Step (n : ℕ) (s : System) : System → Type 0 where
  client :
      (i : ℕ) {h : Shared} {p : Client}
      → i < n
      → ClientMove s.shared (s.clients i) h p
      → Step n s (record s { shared = h; clients = assign i p s.clients })
  pseudo :
      {h : Shared} {w : Pseudo}
      → PseudoMove s.shared s.pseudo h w
      → Step n s (record s { shared = h; pseudo = w })

-- When `startEventLoop` posts the semaphore, which is when the clients get the context: no request was
-- made, and the state is RUNNING.
abbrev pub start_system : System
start_system = record {
  shared = record {
    ctx = record (new_context false) { state = state_running };
    pushed = [];
    taken = [];
    refused = [];
    handed = [];
  };
  clients = λ _. idle;
  pseudo = first_run;
}

pub data Reach (n : ℕ) : System → Type 0 where
  begin : Reach n start_system
  later : {s t : System} → Reach n s → Step n s t → Reach n t
