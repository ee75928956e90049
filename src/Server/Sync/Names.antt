-- ===== src/Server/Sync/Names.antt =====
-- src/server.c: a synchronisation keeps the names of the open tables.
use vecdb.Prelude.{
  ℕ, zero, suc, ◌≡◌, refl, sym, ap, ◌∙◌, subst, List, [], ◌∷◌, ◌++◌, append_assoc, append-nil,
  Option, none, some,
}
use vecdb.Prelude.{
  Bool, true, false, ◌&&◌, if◌then◌else◌, ltb, set, get_elem?, length, ◌+◌, ◌*◌, ◌%◌, ◌^◌,
}
use vecdb.Prelude.Bytes.{u64_mod}
use vecdb.Db.Types.{record_size}
use vecdb.Pending.{load_pending_deletes}
use vecdb.Storage.Types.{Env}
use vecdb.Pending.{Sorting}
use vecdb.Db.AutoDelete.{AutoHost, AutoDeleted, QueueFiles, ran, check_and_run_auto_delete}
use vecdb.Db.AutoDelete
use vecdb.Server.Text.{same}
use vecdb.Server.Tables.{
  OpenTable, Folder, State, put_folder, mark_table_pending_dirty, clear_cached_index,
}
use vecdb.Server.Tables.Invariant.{names_of, names_of-append}
use vecdb.Server.Sync.{
  Synced, synced, stuck, undefined, take_queue, drain, double_to, reload_pending, then_sync,
  after_auto_delete, run_auto_delete, sync_table, sync_tables,
}

pub names_of-set :
    (ts : List OpenTable) (i : ℕ) (t t' : OpenTable)
    → get_elem? ts i ≡ some t
    → t'.name ≡ t.name
    → names_of (set ts i t') ≡ names_of ts
names_of-set [] i t t' h e = refl
names_of-set (u ∷ ts) zero t t' h e = ap (λ n. n ∷ names_of ts) (e ∙ ap name_or_none (sym h))
  where
    name_or_none : Option OpenTable → List ℕ
    name_or_none none = []
    name_or_none (some x) = x.name
names_of-set (u ∷ ts) (suc i) t t' h e = ap (λ l. u.name ∷ l) (names_of-set ts i t t' h e)

pub names_of-mark :
    (db_name : List ℕ) (ts : List OpenTable)
    → names_of (mark_table_pending_dirty db_name ts) ≡ names_of ts
unfolding mark_table_pending_dirty
names_of-mark db_name [] = refl
names_of-mark db_name (t ∷ ts) = by_test (same t.name db_name) (names_of-mark db_name ts)
  where
    by_test :
        (b : Bool)
        → names_of (mark_table_pending_dirty db_name ts) ≡ names_of ts
        → names_of (
            if b
            then record t { pending_delete_dirty = true } ∷ ts
            else t ∷ mark_table_pending_dirty db_name ts)
          ≡ names_of (t ∷ ts)
    by_test true h = refl
    by_test false h = ap (λ l. t.name ∷ l) h

-- What a synchronisation that ends leaves fulfils `P`.
abbrev pub OnSynced {ℓ} : {A : Type ℓ} → (A → Type 0) → Synced A → Type 0
OnSynced P (synced a) = P a
OnSynced P stuck = Unit
OnSynced P undefined = Unit

OnSynced-if {ℓ} :
    {A : Type ℓ} (P : A → Type 0) (b : Bool) (p q : Synced A)
    → OnSynced P p
    → OnSynced P q
    → OnSynced P (if b then p else q)
OnSynced-if P true p q h k = h
OnSynced-if P false p q h k = k

-- The name of a table, which no synchronisation changes.
abbrev Named : List ℕ → OpenTable → Type 0
Named n t = t.name ≡ n

abbrev PairNamed : List ℕ → OpenTable × Folder → Type 0
PairNamed n p = p.0.name ≡ n

drain-OnSynced : (env : Env) (t : OpenTable) → OnSynced (Named t.name) (drain env t)
unfolding drain take_queue
drain-OnSynced env t =
    OnSynced-if (Named t.name) (ltb 0 (length t.insert_queue)) _ _
      (OnSynced-if (Named t.name) (ltb t.db.capacity needed) _ _
        (by_capacity (double_to 64 t.db.capacity needed)) refl)
      refl
  where
    needed : ℕ
    needed = (length t.db.records + length t.insert_queue) % u64_mod

    by_capacity :
        (o : Option ℕ)
        → OnSynced (Named t.name) (elim o as (λ x. Synced OpenTable) [
          | none ↦ stuck
          | some new_cap ↦
              if env.malloc (record_size * new_cap % u64_mod)
              then synced (take_queue env (record t { db = record (t.db) { capacity = new_cap } }))
              else undefined
        ])
    by_capacity none = tt
    by_capacity (some new_cap) =
        OnSynced-if (Named t.name) (env.malloc (record_size * new_cap % u64_mod)) _ undefined refl
          tt

reload_pending-OnSynced :
    (env : Env) (libc : Sorting) (f : Folder) (t : OpenTable)
    → OnSynced (Named t.name) (reload_pending env libc f t)
unfolding reload_pending
reload_pending-OnSynced env libc f t =
    OnSynced-if (Named t.name) t.pending_delete_dirty _ _
      (by_queue (load_pending_deletes env libc f.table.pending_bin)) refl
  where
    by_queue :
        (o : Option (Option (List ℕ)))
        → OnSynced (Named t.name) (elim o as (λ x. Synced OpenTable) [
          | none ↦ undefined
          | some pending_deletes ↦ synced (record t {
            db = record (t.db) { pending_deletes = pending_deletes };
            pending_delete_dirty = false;
          })
        ])
    by_queue none = tt
    by_queue (some pending_deletes) = refl

after_auto_delete-OnSynced :
    (f : Folder) (t : OpenTable) (d : AutoDeleted)
    → OnSynced (PairNamed t.name) (after_auto_delete f t d)
unfolding after_auto_delete clear_cached_index
after_auto_delete-OnSynced f t AutoDelete.undefined = tt
after_auto_delete-OnSynced f t (ran compacted db files) =
    OnSynced-if (PairNamed t.name) (ltb 0 compacted && ltb compacted (2 ^ 31)) _ _ refl refl

run_auto_delete-OnSynced :
    (libc : Sorting) (host : AutoHost) (now : ℕ) (f : Folder) (t : OpenTable)
    → OnSynced (PairNamed t.name) (run_auto_delete libc host now f t)
unfolding run_auto_delete
run_auto_delete-OnSynced libc host now f t = after_auto_delete-OnSynced f t (
    check_and_run_auto_delete libc host now t.db
      (record { pending_bin = f.table.pending_bin; auto_delete_schedule = f.auto_delete_schedule }))

OnSynced-then {ℓ κ} :
    {A : Type ℓ} {B : Type κ} (P : A → Type 0) (Q : B → Type 0) (s : Synced A) (f : A → Synced B)
    → OnSynced P s
    → ((a : A) → P a → OnSynced Q (f a))
    → OnSynced Q (then_sync s f)
OnSynced-then P Q (synced a) f h k = k a h
OnSynced-then P Q stuck f h k = tt
OnSynced-then P Q undefined f h k = tt

sync_table-OnSynced :
    (env : Env) (libc : Sorting) (host : AutoHost) (now : ℕ) (f : Folder) (t : OpenTable)
    → OnSynced (PairNamed t.name) (sync_table env libc host now f t)
unfolding sync_table
sync_table-OnSynced env libc host now f t =
    OnSynced-then (Named t.name) (PairNamed t.name) (drain env t) _ (drain-OnSynced env t) (λ t' h.
      OnSynced-then (Named t.name) (PairNamed t.name) (reload_pending env libc f t') _
        (subst (λ n. OnSynced (Named n) (reload_pending env libc f t')) h
          (reload_pending-OnSynced env libc f t'))
        (λ u k.
          subst (λ n. OnSynced (PairNamed n) (run_auto_delete libc host now f u)) k
            (run_auto_delete-OnSynced libc host now f u)))

-- The names of the tables after a round.
pub sync_tables-OnSynced :
    (env : Env) (libc : Sorting) (host : AutoHost) (now : ℕ) (over more : List OpenTable)
    (st : State)
    → OnSynced
        (λ st'. names_of st'.open_tables ≡ names_of over ++ names_of more)
        (sync_tables env libc host now over more st)
unfolding sync_tables
sync_tables-OnSynced env libc host now over [] st = sym (append-nil (names_of over))
sync_tables-OnSynced env libc host now over (t ∷ more) st =
    OnSynced-then (PairNamed t.name)
      (λ st'. names_of st'.open_tables ≡ names_of over ++ names_of (t ∷ more))
      (sync_table env libc host now (st.folder t.name) t) _
      (sync_table-OnSynced env libc host now (st.folder t.name) t)
      (λ p h.
        subst
          (λ ns.
            OnSynced (λ st'. names_of st'.open_tables ≡ ns)
              (sync_tables env libc host now (over ++ (p.0 ∷ [])) more (put_folder t.name p.1 st)))
          (ap (λ l. l ++ names_of more) (names_of-append over (p.0 ∷ []))
            ∙ append_assoc (names_of over) (p.0.name ∷ []) (names_of more)
            ∙ ap (λ n. names_of over ++ (n ∷ names_of more)) h)
          (sync_tables-OnSynced env libc host now (over ++ (p.0 ∷ [])) more
            (put_folder t.name p.1 st)))
