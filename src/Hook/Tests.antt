-- ===== src/Hook/Tests.antt =====
-- A run of the hooks of src/io/hook.cpp where the results are marks.
use net_base.Base.{ℕ, ◌≡◌, refl, true, false, some}
use net_base.Hook.{Call, send, read, Hooks, call}
use net_base.Hook.Routes.{call-behind}

abbrev sys : Call → ℕ → ℕ × ℕ
sys c w = (1, w)

abbrev co : Call → ℕ → ℕ × ℕ
co c w = (2, w)

abbrev switched_off : Hooks
switched_off = record { enabled = false; inited = false }

call-behind_example :
    call sys co send switched_off 0 ≡ some (2, record { enabled = false; inited = true }, 0)
call-behind_example = call-behind sys co send switched_off 0

read_switched_off :
    call sys co read switched_off 0 ≡ some (1, record { enabled = false; inited = true }, 0)
unfolding call
read_switched_off = refl
