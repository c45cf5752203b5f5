-- ===== src/Spawn/Area.antt =====
-- `get_ve_node_num`, `init_lhm_shm_area`, `close_syscall_args_file` and
-- `init_rwlock_to_sync_dma_fork`.
use veoffload.Base.{
  ℕ, ◌+◌, ◌-◌, ◌*◌, ◌^◌, Bool, ◌&&◌, not, List, [], ◌∷◌, ltb, ◌==◌, if◌then◌else◌, ℤ, negsuc,
  Result, ok, err, assertion, out_of_range,
}
use veoffload.Steps.{Step, give, fail, lift, change, call, ◌>>=◌, ◌>>◌}
use veoffload.Execution.Clone.{is_negative}
use veoffload.Execution.Exceptions.{is_minus_one}
use veoffload.Spawn.Host.{Host}

abbrev pub page_size_4kb : ℕ
page_size_4kb = 4 * 1024

-- `(void *)-1`.
abbrev pub map_failed : ℕ
map_failed = 2 ^ 64 - 1

-- `std::isdigit`.
abbrev pub is_digit : ℕ → Bool
is_digit c = not (ltb c 48) && ltb c 58

-- The loop of `get_ve_node_num`, for the number so far. An overflow of the `int` is a fault.
unfoldable pub node_num : ℕ → List ℕ → Result ℕ
node_num n [] = ok n
node_num n (c ∷ cs) =
    let next = 10 * n + (c - 48) in
    let counted = node_num next cs in
    let skipped = node_num n cs in
    if is_digit c
    then (if ltb next (2 ^ 31) then counted else err out_of_range)
    else (if c == 46 then ok n else skipped)

unfoldable pub get_ve_node_num : List ℕ → Result ℕ
unfolding node_num
get_ve_node_num s = node_num 0 s

module _ {H : Type 0} (host : Host H) where
  -- What follows `mmap`: the page is cleared and handed to libved.
  unfoldable pub use_area : ℤ → ℕ → Step H ℤ
  use_area fd area =
      if area == map_failed
      then give (negsuc 0)
      else (do change (host.clear_page area); change (host.set_shm_lhm_addr area); give fd)

  -- What follows `mkstemp` where it gives a file: `ftruncate` and `mmap`.
  unfoldable pub map_area : ℤ → Step H ℤ
  map_area fd = do
    retval ← call (host.truncate fd page_size_4kb)
    if is_minus_one retval
        then give retval
        else (do area ← call (host.map_shared fd page_size_4kb); use_area fd area)

  -- The part of `init_lhm_shm_area` after the number of the node.
  unfoldable pub make_area : List ℕ → ℕ → Step H (ℤ × ℕ × List ℕ)
  make_area sock_name node = do
    made ← call (host.make_temp (host.dir_name sock_name) node)
    retval ← (if is_negative (made.0) then give (negsuc 0) else map_area (made.0))
    give (retval, node, made.1)

  -- `init_lhm_shm_area`: the result, the node and the name of the file. The last one is copied to the
  -- caller on success only, and not used otherwise.
  unfoldable pub init_lhm_shm_area : List ℕ → Step H (ℤ × ℕ × List ℕ)
  init_lhm_shm_area sock_name = do
    node ← lift (get_ve_node_num (host.base_name sock_name))
    make_area sock_name node

  unfoldable pub close_syscall_args_file : ℤ → List ℕ → Step H (Unit {0})
  close_syscall_args_file fd sfile_name = do change (host.close fd); change (host.unlink sfile_name)

  -- `ret = ...; if (ret) pseudo_abort()`: the process aborts, as it does for `VEO_ASSERT`.
  unfoldable pub or_abort : (H → ℕ × H) → Step H (Unit {0})
  or_abort f = do ret ← call f; if ret == 0 then give tt else fail assertion

  -- `init_rwlock_to_sync_dma_fork`. A failure of the last call is only logged.
  unfoldable pub init_rwlock : Step H (Unit {0})
  init_rwlock = do
    or_abort host.rwlockattr_init
    or_abort host.rwlockattr_setkind
    or_abort host.rwlock_init
    change (λ h. (host.rwlockattr_destroy h).1)
