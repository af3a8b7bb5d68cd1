-- ===== src/Hal/Event.antt =====
-- `hal_event_t` of ccs_project/src/hal/hal_os_api.c. The bodies of all its operations are empty:
-- none of them touches the event, and `wait` does not wait. A number stands for the handle.
use cc2745_repo.Prelude.{ℕ, Cmd, pure}

abbrev pub Event : Type 0
Event = ℕ

unfoldable pub create : Cmd Event (Unit {0})
create = pure tt

unfoldable pub wait : (event_mask : ℕ) → Cmd Event (Unit {0})
wait event_mask = pure tt

unfoldable pub post : (event_bits : ℕ) → Cmd Event (Unit {0})
post event_bits = pure tt

unfoldable pub get : Cmd Event (Unit {0})
get = pure tt

unfoldable pub clear : Cmd Event (Unit {0})
clear = pure tt
