-- ===== src/Api/Create.antt =====
-- `veo_proc__create`, `veo_proc_create_static`, `veo_proc_create` and `veo_proc_destroy`.
use veoffload.Base.{ℕ, ◌+◌, ◌-◌, List, take, Option, none, some, ℤ, pos, negsuc}
use veoffload.Steps.{Step, give, ◌>>=◌, ◌>>◌, catching}
use veoffload.Nodes.Select.{select_node}
use veoffload.Proc.Handle.{ProcHandle}
use veoffload.Proc.Create.{Creator, Creation}
use veoffload.Proc.Start.{create}
use veoffload.Proc.Destroy.{Exiter, exit_proc}
use veoffload.Api.Reply.{Reply, plain, with_errno}

-- What the build fixes: VE_DEV and VEOS_SOCKET as printed for a node, the size of the second one,
-- and the default VEORUN_BIN.
pub record Paths : Type 0 where
  pub ve_dev : ℤ → List ℕ
  pub veos_socket : ℤ → List ℕ
  pub veos_socket_size : ℕ
  pub veorun_bin : List ℕ

-- The environment: _VENODELIST, VE_NODE_NUMBER, VEORUN_BIN, and all of it as pointers.
pub record Environment : Type 0 where
  pub venodelist : Option (List ℕ)
  pub ve_node_number : Option (List ℕ)
  pub veorun_bin : Option (List ℕ)
  pub environ : List ℕ

module _ {D : Type 0} (c : Creator D) (patience fuel exs name : ℕ) where
  -- A null pointer is `none`.
  unfoldable pub veo_proc__create :
      (ossock vedev binname environ : List ℕ) → Step (Creation D) (Reply (Option ProcHandle))
  veo_proc__create ossock vedev binname environ =
      catching (λ e. give (with_errno none e))
        (do p ← create c patience fuel exs name ossock vedev binname environ; give (plain (some p)))

  -- The creation on a node. `snprintf` cuts what does not fit its buffer.
  unfoldable pub create_on :
      Paths → Environment → (veobin : List ℕ) → ℤ → Step (Creation D) (Reply (Option ProcHandle))
  create_on paths env veobin node =
      let vedev = take (16 - 1) (paths.ve_dev node) in
      let ossock = take (paths.veos_socket_size + 16 - 1) (paths.veos_socket node) in
      veo_proc__create ossock vedev veobin env.environ

  unfoldable pub veo_proc_create_static :
      Paths → Environment → ℤ → (veobin : List ℕ) → Step (Creation D) (Reply (Option ProcHandle))
  veo_proc_create_static paths env venode veobin =
      elim (select_node env.venodelist env.ve_node_number venode) [
        | none ↦ give (plain none)
        | some node ↦ create_on paths env veobin node
      ]

  unfoldable pub veo_proc_create :
      Paths → Environment → ℤ → Step (Creation D) (Reply (Option ProcHandle))
  veo_proc_create paths env venode = elim env.veorun_bin [
    | some veobin ↦ veo_proc_create_static paths env venode veobin
    | none ↦ veo_proc_create_static paths env venode paths.veorun_bin
  ]

module _ {S : Type 0} (exiter : Exiter S) where
  unfoldable pub veo_proc_destroy : ProcHandle → Step S (Reply ℤ)
  veo_proc_destroy p =
      catching (λ e. give (plain (negsuc 0))) (do exit_proc exiter p; give (plain (pos 0)))
