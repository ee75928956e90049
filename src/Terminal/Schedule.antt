-- ===== src/Terminal/Schedule.antt =====
-- src/terminal.c with src/pending-delete.c: a schedule that is set, asked for and cancelled at the prompt.
use vecdb.Prelude.{ℕ, ◌+◌, ◌-◌, ◌*◌, ◌/◌, ◌%◌, ◌<◌, ◌≡◌, refl, ap, ap₂, ◌∙◌, arith, List, Option}
use vecdb.Prelude.{true, if◌then◌else◌, leb, ◌==◌, ne→==}
use vecdb.Prelude.Bytes.{u64_mod}
use vecdb.Pending.{set_auto_delete_schedule, get_auto_delete_schedule, clear_auto_delete_schedule}
use vecdb.Pending.Schedule.{get-u64_bytes, schedule_cleared_lem}
use vecdb.Server.Auth.Verify.{same_refl}
use vecdb.Terminal.Scan.{Fields}
use vecdb.Terminal.Session.{
  Session, Console, continues, scheduled, due, hours_left, not_scheduled, schedule_cleared,
}
use vecdb.Terminal.Queue.{
  time_in, put_schedule, schedule_set, cmd_set_auto_delete, cmd_auto_delete_status,
  cmd_cancel_auto_delete,
}

-- The status of a schedule that is known.
status_lem :
    (C : Console) (st : Session) (f : Fields) (time : ℕ)
    → get_auto_delete_schedule (st.folder f.db_name).auto_delete_schedule ≡ time
    → cmd_auto_delete_status C st f 3 ≡ (
        if time == 0
        then continues st not_scheduled
        else if leb time C.now
        then continues st due
        else continues st (hours_left ((time - C.now) / 3600)))
unfolding cmd_auto_delete_status
status_lem C st f time e =
    ap
      (λ t.
        if t == 0
        then continues st not_scheduled
        else if leb t C.now
        then continues st due
        else continues st (hours_left ((t - C.now) / 3600)))
      e

-- The schedule that has been put into a folder.
put_schedule_lem :
    (C : Console) (st : Session) (db_name : List ℕ) (schedule : Option (List ℕ))
    → ((put_schedule C db_name schedule st).folder db_name).auto_delete_schedule ≡ schedule
put_schedule_lem C st db_name schedule = rw (same_refl db_name) refl

whole :
    (now days : ℕ)
    → now + days * 86400 < u64_mod
    → (now + days * 86400 % u64_mod) % u64_mod ≡ now + days * 86400
whole now days h = omega arith

-- A schedule that is written.
schedule_set_lem :
    (C : Console) (st : Session) (f : Fields) (time : ℕ)
    → time_in C f.dimension ≡ time
    → schedule_set C st f.db_name f.dimension (
        set_auto_delete_schedule true true
          (time_in C f.dimension)
          (st.folder f.db_name).auto_delete_schedule)
      ≡ continues
          (put_schedule C f.db_name
            (set_auto_delete_schedule true true time (st.folder f.db_name).auto_delete_schedule).1
            st)
          (scheduled f.dimension time)
unfolding schedule_set set_auto_delete_schedule
schedule_set_lem C st f time e =
    ap
      (λ t.
        continues
          (put_schedule C f.db_name
            (set_auto_delete_schedule true true t (st.folder f.db_name).auto_delete_schedule).1 st)
          (scheduled f.dimension t))
      e

-- A schedule that set-auto-delete reports as set for some days is the one that auto-delete-status
-- answers from at any time later or earlier: due from that time on, and before it in the whole hours
-- that are left; after cancel-auto-delete there is none. The file of the schedule opens and takes its
-- bytes, it can be removed when it is cancelled, and the time is above 0 and fits 64 bits.
pub set_auto_delete_status :
    (C now later : Console) (st : Session) (f g : Fields)
    → C.sets ≡ true
    → C.sets_written ≡ true
    → later.files.removes ≡ true
    → g.db_name ≡ f.db_name
    → 0 < C.now
    → C.now + f.dimension * 86400 < u64_mod
    → (st' : Session) × (st'' : Session) × (cmd_set_auto_delete C st f 4
        ≡ continues st' (scheduled f.dimension (C.now + f.dimension * 86400)))
      × (cmd_auto_delete_status now st' g 3 ≡ (
          if leb (C.now + f.dimension * 86400) now.now
          then continues st' due
          else continues st' (hours_left ((C.now + f.dimension * 86400 - now.now) / 3600))))
      × (cmd_cancel_auto_delete later st' g 3 ≡ continues st'' schedule_cleared)
      × (cmd_auto_delete_status later st'' g 3 ≡ continues st'' not_scheduled)
unfolding cmd_set_auto_delete cmd_cancel_auto_delete
set_auto_delete_status C now later st f g sets written removes same_table pos small = (
  after,
  cleared,
  ap₂
        (λ a b.
          schedule_set C st f.db_name f.dimension
            (set_auto_delete_schedule a b (time_in C f.dimension) old))
        sets written
      ∙ schedule_done,
  status_lem now after g time set_time ∙ rw (ne→== time 0 (λ e. omega (arith, e))) refl,
  refl,
  status_lem later cleared g 0 no_time,
)
  where
    time : ℕ
    time = C.now + f.dimension * 86400

    old : Option (List ℕ)
    old = (st.folder f.db_name).auto_delete_schedule

    after : Session
    after = put_schedule C f.db_name (set_auto_delete_schedule true true time old).1 st

    cleared : Session
    cleared =
        put_schedule later g.db_name
          (clear_auto_delete_schedule later.files.removes
            (after.folder g.db_name).auto_delete_schedule).1
          after

    schedule_done :
        schedule_set C st f.db_name f.dimension
          (set_auto_delete_schedule true true (time_in C f.dimension) old)
        ≡ continues after (scheduled f.dimension time)
    schedule_done = schedule_set_lem C st f time (whole C.now f.dimension small)

    set_time : get_auto_delete_schedule (after.folder g.db_name).auto_delete_schedule ≡ time
    set_time =
        ap (λ n. get_auto_delete_schedule (after.folder n).auto_delete_schedule) same_table
        ∙ ap get_auto_delete_schedule
            (put_schedule_lem C st f.db_name (set_auto_delete_schedule true true time old).1)
        ∙ unfold set_auto_delete_schedule in get-u64_bytes time small

    no_time : get_auto_delete_schedule (cleared.folder g.db_name).auto_delete_schedule ≡ 0
    no_time =
        ap get_auto_delete_schedule (
          put_schedule_lem later after g.db_name
            (clear_auto_delete_schedule later.files.removes
              (after.folder g.db_name).auto_delete_schedule).1)
        ∙ schedule_cleared_lem later.files.removes (after.folder g.db_name).auto_delete_schedule
            removes
