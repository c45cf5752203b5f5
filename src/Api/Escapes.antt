-- ===== src/Api/Escapes.antt =====
-- No `VEOException` leaves a function of the C API.
use veoffload.Base.{
  ℕ, ◌≢◌, List, Option, none, some, pos, negsuc, Result, ok, err, null_pointer, uninitialised,
  out_of_range, length_error, assertion, out_of_fuel, exception, ltb, Bool-cases, inl, inr,
}
use veoffload.Steps.{Step, give, handle, catching, ◌>>=◌, ◌>>◌}
use veoffload.Args.Setup.{CallArgs}
use veoffload.Context.State.{Context, request_id_invalid}
use veoffload.Attr.Object.{ThreadContextAttr}
use veoffload.Proc.Worker.{Worker, VhAccess}
use veoffload.Proc.Handle.{ProcHandle, Text}
use veoffload.Proc.Open.{open_context_with_attr}
use veoffload.Api.Reply.{plain, with_errno, reply}
use veoffload.Api.Process.{
  veo_load_library, veo_get_sym, veo_alloc_mem, veo_free_mem, veo_read_mem, veo_write_mem,
  minus_one,
}
use veoffload.Api.Contexts.{
  veo_context_open, check_pointer, open_checked, veo_context_open_with_attr, or_invalid,
  call_async_by_name, veo_call_async_by_name,
}
use veoffload.Api.Arguments.{set_or_fail, update_step}

module _ {S A : Type 0} where
  -- It may end in any other way.
  abbrev pub StopsExceptions : Step S A → Type 0
  StopsExceptions m = (s : S) (e : ℕ) → (m s).0 ≢ err (exception e)

  handle_lem :
      (handler : ℕ → A) (r : Result A × S) (e : ℕ)
      → (handle (λ e. give (handler e)) r).0 ≢ err (exception e)
  unfolding handle
  handle_lem handler (ok a, s) e = λ x. cc
  handle_lem handler (err null_pointer, s) e = λ x. cc
  handle_lem handler (err uninitialised, s) e = λ x. cc
  handle_lem handler (err out_of_range, s) e = λ x. cc
  handle_lem handler (err length_error, s) e = λ x. cc
  handle_lem handler (err assertion, s) e = λ x. cc
  handle_lem handler (err out_of_fuel, s) e = λ x. cc
  handle_lem handler (err (exception n), s) e = λ x. cc

  pub catching-StopsExceptions :
      (handler : ℕ → A) (body : Step S A) → StopsExceptions (catching (λ e. give (handler e)) body)
  unfolding catching
  catching-StopsExceptions handler body s e = handle_lem handler (body s) e

module _ {S : Type 0} where
  or_invalid-StopsExceptions : (m : Step S ℕ) → StopsExceptions (or_invalid m)
  unfolding or_invalid
  or_invalid-StopsExceptions m = catching-StopsExceptions (λ e. plain request_id_invalid) (reply m)

set_or_fail-StopsExceptions : (f : CallArgs → Result CallArgs) → StopsExceptions (set_or_fail f)
unfolding set_or_fail
set_or_fail-StopsExceptions f =
    catching-StopsExceptions (λ e. negsuc 0) (update_step f >> give (pos 0))

module _ {S : Type 0} (worker : Worker S) where
  open_checked-StopsExceptions :
      (vh : VhAccess S) (layout : ℕ → ℕ → List ℕ) (version3 attr_v3 tid_counter : ℕ)
      (attr : ThreadContextAttr) (p : ProcHandle)
      → StopsExceptions (open_checked worker vh layout version3 attr_v3 tid_counter attr p)
  unfolding open_checked
  open_checked-StopsExceptions vh layout version3 attr_v3 tid_counter attr p s e =
      elim (Bool-cases (ltb p.funcs.version version3)) [
        | inl old ↦ rw old (λ x. cc)
        | inr new ↦ rw new (
            catching-StopsExceptions (λ e. with_errno 0 e)
              (open_context_with_attr worker vh layout attr_v3 tid_counter attr p
                >>= (λ ctx. give (check_pointer ctx)))
              s e)
      ]

  open_with_attr-StopsExceptions :
      (vh : VhAccess S) (layout : ℕ → ℕ → List ℕ) (version3 attr_v3 tid_counter : ℕ)
      (attr : Option ThreadContextAttr) (p : Option ProcHandle)
      → StopsExceptions
          (veo_context_open_with_attr worker vh layout version3 attr_v3 tid_counter attr p)
  unfolding veo_context_open_with_attr
  open_with_attr-StopsExceptions vh layout v a t none p s e = λ x. cc
  open_with_attr-StopsExceptions vh layout v a t (some attr) none s e = λ x. cc
  open_with_attr-StopsExceptions vh layout v a t (some attr) (some p) s e =
      open_checked-StopsExceptions vh layout v a t attr p s e

  -- Whatever the worker does, no `VEOException` leaves `veo_load_library`, `veo_get_sym`,
  -- `veo_alloc_mem`, `veo_free_mem`, `veo_read_mem`, `veo_write_mem`, `veo_context_open`,
  -- `veo_context_open_with_attr` with null pointers or without, and `veo_call_async_by_name`.
  pub exceptions_stop :
      (vh : VhAccess S) (layout : ℕ → ℕ → List ℕ) (version attr_v3 tid_counter ret_buff err_msg : ℕ)
      (name : Text) (p : ProcHandle) (attr : Option ThreadContextAttr) (q : Option ProcHandle)
      (ctx : Context) (n args dst src size e : ℕ) (s : S)
      → ((veo_load_library worker vh version ret_buff err_msg name p s).0 ≢ err (exception e))
        × ((veo_get_sym worker n name (p, s)).0 ≢ err (exception e))
        × ((veo_alloc_mem worker size p s).0 ≢ err (exception e))
        × ((veo_free_mem worker n p s).0 ≢ err (exception e))
        × ((veo_read_mem worker dst src size s).0 ≢ err (exception e))
        × ((veo_write_mem worker dst src size s).0 ≢ err (exception e))
        × ((veo_context_open worker tid_counter p s).0 ≢ err (exception e))
        × ((veo_context_open_with_attr worker vh layout version attr_v3 tid_counter attr q s).0
            ≢ err (exception e))
        × ((veo_call_async_by_name worker n name args (record { proc = (p, s); ctx = ctx })).0
            ≢ err (exception e))
  unfolding veo_load_library veo_get_sym veo_alloc_mem veo_free_mem veo_read_mem veo_write_mem
      veo_context_open veo_call_async_by_name
  exceptions_stop vh layout version attr_v3 tid_counter ret_buff err_msg name p attr q ctx n args
        dst src size e s =
      (
        catching-StopsExceptions (λ e. with_errno 0 e) _ s e,
        catching-StopsExceptions (λ e. with_errno 0 e) _ (p, s) e,
        catching-StopsExceptions (λ e. plain (negsuc 1, none)) _ s e,
        catching-StopsExceptions (λ e. plain (negsuc 0)) _ s e,
        catching-StopsExceptions (λ e. plain minus_one) _ s e,
        catching-StopsExceptions (λ e. plain minus_one) _ s e,
        catching-StopsExceptions (λ e. with_errno 0 e) _ s e,
        open_with_attr-StopsExceptions vh layout version attr_v3 tid_counter attr q s e,
        or_invalid-StopsExceptions (call_async_by_name worker n name args) _ e,
      )
