-- ===== src/Server/Actions/Delete.antt =====
-- src/server.c with src/pending-delete.c: requests to delete, one after another.
use vecdb.Prelude.{◌≡◌, refl, sym, ap, ◌∙◌, List, ℕ, Bool, true, false}
use vecdb.Pending.{append_pending_delete}
use vecdb.Server.Request.{DeleteReq}
use vecdb.Server.Tables.{State}
use vecdb.Server.Actions.{
  Machine, Handled, handled, undefined, hangs, running, queue_delete, answer_delete,
}

-- Whether the lock of the queue is held after a request that is answered.
holds_lock : Handled → Bool
holds_lock (handled st reply closed) = st.append_lock
holds_lock undefined = true
holds_lock hangs = true
holds_lock running = true

queue_delete-lock :
    (M : Machine) (st : State) (req : DeleteReq)
    → M.appends ≡ true
    → holds_lock (queue_delete M st req) ≡ true
unfolding queue_delete append_pending_delete answer_delete holds_lock
queue_delete-lock M st req appends = by_lock st.append_lock M.appends appends
  where
    by_lock :
        (lock opens : Bool)
        → opens ≡ true
        → holds_lock (
            answer_delete M st req.db_name (
              append_pending_delete opens
                (record {
                  pending_bin = (st.folder req.db_name).table.pending_bin;
                  append_lock = lock;
                })
                req.id))
          ≡ true
    by_lock true opens e = refl
    by_lock false true e = refl
    by_lock false false e = absurd cc

-- Once a request to delete has been answered, with the file of the queue there to be opened, every
-- request to delete after it hangs, whatever its table: its thread waits for a lock that is never
-- given back.
pub queue_delete_hangs :
    (M : Machine) (st st' : State) (req later : DeleteReq) (reply : List ℕ) (closed : Bool)
    → M.appends ≡ true
    → queue_delete M st req ≡ handled st' reply closed
    → queue_delete M st' later ≡ hangs
unfolding queue_delete append_pending_delete answer_delete holds_lock
queue_delete_hangs M st st' req later reply closed appends answered =
    ap
      (λ lock. answer_delete M st' later.db_name (
        append_pending_delete M.appends
          (record {
            pending_bin = (st'.folder later.db_name).table.pending_bin;
            append_lock = lock;
          })
          later.id))
      (sym (ap holds_lock answered) ∙ queue_delete-lock M st req appends)
