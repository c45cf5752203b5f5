-- ===== src/Attr/Object.antt =====
-- `ThreadContextAttr`, `veo_alloc_thr_ctxt_attr`, `veo_set_thr_ctxt_stacksize` and
-- `veo_get_thr_ctxt_stacksize`.
use veoffload.Base.{
  ℕ, ◌*◌, Bool, true, false, Option, none, some, ltb, if◌then◌else◌, ℤ, pos, negsuc, Result, ok,
  err, null_pointer, uninitialised, out_of_range, length_error, assertion, out_of_fuel, exception,
}

pub record ThreadContextAttr : Type 0 where
  pub stacksize : ℕ

abbrev pub veo_default_stack_size : ℕ
veo_default_stack_size = 0x4000000

abbrev pub veo_stack_min : ℕ
veo_stack_min = 4 * 1024 * 1024

-- `EINVAL` on Linux.
abbrev pub einval : ℕ
einval = 22

-- The constructor.
abbrev pub new_attr : ThreadContextAttr
new_attr = record { stacksize = veo_default_stack_size }

unfoldable pub set_stacksize : ℕ → ThreadContextAttr → Result ThreadContextAttr
set_stacksize stack_sz attr =
    if ltb stack_sz veo_stack_min
    then err (exception einval)
    else ok (record attr { stacksize = stack_sz })

-- What a C function gives: its value, errno if it sets it, and the attributes.
pub record Returned : Type 0 where
  pub value : ℤ
  pub errno : Option ℕ
  pub attr : Option ThreadContextAttr

-- `veo_set_thr_ctxt_stacksize`; `none` is a null pointer. Only a `VEOException` is caught.
unfoldable pub api_set_stacksize : Option ThreadContextAttr → ℕ → Result Returned
api_set_stacksize none stack_sz = ok (record { value = negsuc 0; errno = some einval; attr = none })
api_set_stacksize (some attr) stack_sz = elim (set_stacksize stack_sz attr) [
  | ok attr' ↦ ok (record { value = pos 0; errno = none; attr = some attr' })
  | err (exception e) ↦ ok (record { value = negsuc 0; errno = some e; attr = some attr })
  | err null_pointer ↦ err null_pointer
  | err uninitialised ↦ err uninitialised
  | err out_of_range ↦ err out_of_range
  | err length_error ↦ err length_error
  | err assertion ↦ err assertion
  | err out_of_fuel ↦ err out_of_fuel
]

-- `veo_get_thr_ctxt_stacksize`: the value, errno, and what is stored through `stack_sz`, of which `to`
-- tells whether it is not null.
unfoldable pub api_get_stacksize : Option ThreadContextAttr → Bool → ℤ × Option ℕ × Option ℕ
api_get_stacksize none to = (negsuc 0, some einval, none)
api_get_stacksize (some attr) false = (negsuc 0, some einval, none)
api_get_stacksize (some attr) true = (pos 0, none, some attr.stacksize)

-- `veo_alloc_thr_ctxt_attr`, where the memory is given.
unfoldable pub api_alloc_attr : Returned
api_alloc_attr = record { value = pos 0; errno = none; attr = some new_attr }

-- `veo_free_thr_ctxt_attr`; the object is gone afterwards.
unfoldable pub api_free_attr : Option ThreadContextAttr → Returned
api_free_attr none = record { value = negsuc 0; errno = some einval; attr = none }
api_free_attr (some attr) = record { value = pos 0; errno = none; attr = none }
