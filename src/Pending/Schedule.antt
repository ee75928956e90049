-- ===== src/Pending/Schedule.antt =====
-- src/pending-delete.c: the time at which the queue runs by itself.
use vecdb.Prelude.{ℕ, ◌<◌, ◌≡◌, refl, List, Option, none, some, true, subst}
use vecdb.Prelude.{append-nil, [], Bool}
use vecdb.Prelude.Bytes.{u64_mod, u64_bytes, u64_at, u64_at-u64_bytes, length-encode_le}
use vecdb.Pending.{get_auto_delete_schedule, clear_auto_delete_schedule}

-- A time that was set is read back.
pub get-u64_bytes : (t : ℕ) → t < u64_mod → get_auto_delete_schedule (some (u64_bytes t)) ≡ t
unfolding get_auto_delete_schedule
get-u64_bytes t h =
    rw (length-encode_le 8 t)
      (subst (λ b. u64_at b ≡ t) (append-nil (u64_bytes t)) (u64_at-u64_bytes t [] h))

-- A time whose file is removed is gone.
pub schedule_cleared_lem :
    (removes : Bool) (schedule : Option (List ℕ))
    → removes ≡ true
    → get_auto_delete_schedule (clear_auto_delete_schedule removes schedule).1 ≡ 0
unfolding get_auto_delete_schedule clear_auto_delete_schedule
schedule_cleared_lem removes none h = refl
schedule_cleared_lem removes (some bytes) h = rw h refl
