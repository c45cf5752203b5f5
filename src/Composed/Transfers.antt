-- ===== src/Composed/Transfers.antt =====
-- `readMem` and `writeMem` of a process handle, over the queues and the pseudo thread of its worker,
-- against transfers that are made directly.
use veoffload.Base.{
  ℕ, suc, ◌^◌, ◌<◌, ◌≡◌, refl, true, false, List, [], ◌∷◌, some, Option, Result, ok, err, assertion,
  ◌>>=◌, ℤ, pos, negsuc, Memory, load, store, if◌then◌else◌, arith,
}
use veoffload.Queues.Blocking.{queue_ready}
use veoffload.Context.State.{Context, Task, read_task, write_task}
use veoffload.Context.Requests.{async_read_mem, async_write_mem}
use veoffload.Context.Issue.{next_id, requested, requests_lem}
use veoffload.Execution.Driver.{Driver, World}
use veoffload.Execution.Exceptions.{is_zero}
use veoffload.Execution.Calls.{read_mem as fetch, write_mem as ship}
use veoffload.Execution.Handlers.{
  to_u64, run_task, run_handler, run_read, run_write, transfer_status,
}
use veoffload.Proc.Worker.{Worker}
use veoffload.Proc.Handle.{read_mem, write_mem, assert_ok}
use veoffload.Composed.Pseudo.{request, pseudo_worker}
use veoffload.Composed.Serve.{idle, idle_world, asked, served, wait_success, wait_failure}

-- A transfer that the client asks for.
pub data Transfer : Type 0 where
  reads writes : (dst src size : ℕ) → Transfer

module _ {D : Type 0} (os : Driver D) where
  -- The transfers made directly: on the memory of the VH and the state of the VE, with no queue and
  -- no thread. A transfer with another status than zero aborts.
  abbrev pub settle : ℤ → Memory × D → Result (Memory × D)
  settle rv m = if is_zero rv then ok m else err assertion

  unfoldable pub direct : Transfer → Memory × D → Result (Memory × D)
  direct (reads dst src size) m =
      let r = os.recv_data src size (m.1) in settle (r.0) (store (m.0) dst (r.1), r.2)
  direct (writes dst src size) m =
      let r = os.send_data dst (load (m.0) src size) (m.1) in settle (r.0) (m.0, r.1)

  unfoldable pub replay : List Transfer → Memory × D → Result (Memory × D)
  replay [] m = ok m
  replay (t ∷ ts) m = direct t m >>= replay ts

module _ {D : Type 0} where
  -- What the queues and the context hold is forgotten.
  unfoldable pub view : Result (World D) → Result (Memory × D)
  view (ok w) = ok (w.vh, w.ve)
  view (err fault) = err fault

  -- What follows a call, unless it throws or aborts.
  unfoldable pub after : (World D → Result (World D)) → Result ℕ × World D → Result (World D)
  after next (ok value, w) = next w
  after next (err fault, w) = err fault

module _ {D : Type 0} (os : Driver D) (p f exs rounds name : ℕ) where
  -- The transfers of the process handle, one after the other.
  unfoldable pub carry_out : Transfer → World D → Result ℕ × World D
  carry_out (reads dst src size) w = read_mem (pseudo_worker os p f exs rounds name) dst src size w
  carry_out (writes dst src size) w =
      write_mem (pseudo_worker os p f exs rounds name) dst src size w

  unfoldable pub run : List Transfer → World D → Result (World D)
  run [] w = ok w
  run (t ∷ ts) w = after (run ts) (carry_out t w)

  to_u64-zero : (rv : ℤ) → is_zero rv ≡ true → to_u64 rv ≡ 0
  to_u64-zero (pos n) z = ground arith
  to_u64-zero (negsuc n) z = cc

  pub request_lem :
      (ask : Context → Option (ℕ × Context)) (task : Task) (w : World D)
      → ask (idle w.ctx) ≡ some (next_id w.ctx.seq_no, requested task (idle w.ctx))
      → request ask (idle_world w) ≡ (next_id w.ctx.seq_no, asked task w)
  unfolding request
  request_lem ask task w e = rw (e, request) refl

  -- The requests of an idle context.
  read_request :
      (dst src size : ℕ) (w : World D)
      → w.ctx.seq_no < 2 ^ 64
      → request (async_read_mem dst src size) (idle_world w)
        ≡ (next_id w.ctx.seq_no, asked (read_task dst src size) w)
  read_request dst src size w h =
      let all = requests_lem (idle w.ctx) queue_ready 1 0 h refl refl (λ e. absurd (omega arith)) in
      request_lem (async_read_mem dst src size) (read_task dst src size) w (all.2 dst src size)

  write_request :
      (dst src size : ℕ) (w : World D)
      → w.ctx.seq_no < 2 ^ 64
      → request (async_write_mem dst src size) (idle_world w)
        ≡ (next_id w.ctx.seq_no, asked (write_task dst src size) w)
  write_request dst src size w h =
      let all = requests_lem (idle w.ctx) queue_ready 1 0 h refl refl (λ e. absurd (omega arith)) in
      request_lem (async_write_mem dst src size) (write_task dst src size) w (all.3 dst src size)

  abbrev pub worker : Worker (World D)
  worker = pseudo_worker os p f exs (suc (suc rounds)) name

  -- A read, by its status.
  pub read_success :
      (dst src size : ℕ) (w : World D)
      → w.ctx.seq_no < 2 ^ 64
      → is_zero ((os.recv_data src size w.ve).0) ≡ true
      → read_mem worker dst src size (idle_world w) ≡ (
        ok 0,
        served w (store w.vh dst ((os.recv_data src size w.ve).1)) ((os.recv_data src size w.ve).2),
      )
  unfolding read_mem pseudo_worker run_task run_handler run_read fetch assert_ok
  read_success dst src size w h z =
      let r = os.recv_data src size w.ve in
      let waited =
        wait_success os p f exs rounds name (read_task dst src size) w (r.0) (to_u64 (r.0))
          (transfer_status os (r.0)) (store w.vh dst (r.1)) (r.2) refl z in
      rw (read_request dst src size w h, waited, z, to_u64-zero (r.0) z) refl

  pub read_failure :
      (dst src size : ℕ) (w : World D)
      → w.ctx.seq_no < 2 ^ 64
      → is_zero ((os.recv_data src size w.ve).0) ≡ false
      → (read_mem worker dst src size (idle_world w)).0 ≡ err assertion
  unfolding read_mem pseudo_worker run_task run_handler run_read fetch assert_ok
  read_failure dst src size w h z =
      let r = os.recv_data src size w.ve in
      let waited =
        wait_failure os p f exs rounds name (read_task dst src size) w (r.0) (to_u64 (r.0))
          (transfer_status os (r.0)) (store w.vh dst (r.1)) (r.2) refl z in
      rw (read_request dst src size w h, waited, z) refl

  -- A write, by its status.
  pub write_success :
      (dst src size : ℕ) (w : World D)
      → w.ctx.seq_no < 2 ^ 64
      → is_zero ((os.send_data dst (load w.vh src size) w.ve).0) ≡ true
      → write_mem worker dst src size (idle_world w)
        ≡ (ok 0, served w w.vh ((os.send_data dst (load w.vh src size) w.ve).1))
  unfolding write_mem pseudo_worker run_task run_handler run_write ship assert_ok
  write_success dst src size w h z =
      let r = os.send_data dst (load w.vh src size) w.ve in
      let waited =
        wait_success os p f exs rounds name (write_task dst src size) w (r.0) (to_u64 (r.0))
          (transfer_status os (r.0)) w.vh (r.1) refl z in
      rw (write_request dst src size w h, waited, z, to_u64-zero (r.0) z) refl

  pub write_failure :
      (dst src size : ℕ) (w : World D)
      → w.ctx.seq_no < 2 ^ 64
      → is_zero ((os.send_data dst (load w.vh src size) w.ve).0) ≡ false
      → (write_mem worker dst src size (idle_world w)).0 ≡ err assertion
  unfolding write_mem pseudo_worker run_task run_handler run_write ship assert_ok
  write_failure dst src size w h z =
      let r = os.send_data dst (load w.vh src size) w.ve in
      let waited =
        wait_failure os p f exs rounds name (write_task dst src size) w (r.0) (to_u64 (r.0))
          (transfer_status os (r.0)) w.vh (r.1) refl z in
      rw (write_request dst src size w h, waited, z) refl
