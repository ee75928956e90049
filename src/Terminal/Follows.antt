-- ===== src/Terminal/Follows.antt =====
-- src/terminal.c: what a command leaves of the session, and how it is carried through a command.
use vecdb.Prelude.{ℕ, ◌≤◌, ◌≡◌, refl, sym, ◌∙◌, subst, arith, List, Option, none, some}
use vecdb.Prelude.{Bool, true, false, Bool-cases, inl, inr, length, if◌then◌else◌}
use vecdb.Db.Types.{FlatDb}
use vecdb.Db.Name.{validate_db_name}
use vecdb.Server.Text.{same}
use vecdb.Server.Tables.{Folder}
use vecdb.Terminal.Scan.{conversion, skip_word, behind_words, VectorRead, floats, no_number}
use vecdb.Terminal.Scan
use vecdb.Terminal.Input.{Leaves, with_floats, without, nowhere}
use vecdb.Terminal.Session.{
  Master, Session, Message, Ran, continues, exits, serves, aborts, undefined, detached, running,
  file_name_of, seen_by, put_files,
}
use vecdb.Terminal.Tables.{keep_db, take_db, with_master, without_master, with_vector}

-- The open table's file is that of a table with a valid name.
abbrev pub IsOwn : Option Master → Type 0
IsOwn none = Unit {0}
IsOwn (some m) =
    (name : List ℕ) × (m.file_name ≡ file_name_of name) × (validate_db_name (some name) ≡ true)

-- A table that is open stays the open one, with its dimension.
abbrev pub Keeps : Option Master → Option Master → Type 0
Keeps none after = Unit {0}
Keeps (some m) none = ⊥
Keeps (some m) (some m') = (m'.file_name ≡ m.file_name) × (m'.db.dimension ≡ m.db.dimension)

-- What holds between a session and what a command leaves of it.
pub record Follows (st st' : Session) : Type 0 where
  pub own : IsOwn st.master_db → IsOwn st'.master_db
  pub keeps : Keeps st.master_db st'.master_db
  pub input_le : length st'.input ≤ length st.input

Keeps-refl : (o : Option Master) → Keeps o o
Keeps-refl none = tt
Keeps-refl (some m) = (refl, refl)

-- The open table is as before, and of the input nothing has come back.
pub unchanged-Follows :
    (st st' : Session)
    → st'.master_db ≡ st.master_db
    → length st'.input ≤ length st.input
    → Follows st st'
unchanged-Follows st st' e h = record {
  own = subst IsOwn (sym e);
  keeps = subst (Keeps st.master_db) (sym e) (Keeps-refl st.master_db);
  input_le = h;
}

-- The same table has other contents.
pub keep_db-Follows :
    (st st' : Session) (m : Master) (db : FlatDb)
    → st.master_db ≡ some m
    → db.dimension ≡ m.db.dimension
    → length st'.input ≤ length st.input
    → Follows st (keep_db st' m db)
keep_db-Follows st st' m db e d h = record {
  own = λ own. subst IsOwn e own;
  keeps = subst (λ o. Keeps o (some (record m { db = db }))) (sym e) (refl, d);
  input_le = h;
}

-- There was no table, and one of a valid name is open.
pub take_db-Follows :
    (st st' : Session) (db_name : List ℕ) (db : FlatDb)
    → st.master_db ≡ none
    → validate_db_name (some db_name) ≡ true
    → length st'.input ≤ length st.input
    → Follows st (take_db st' db_name db)
take_db-Follows st st' db_name db e valid h = record {
  own = λ own. (db_name, refl, valid);
  keeps =
      subst (λ o. Keeps o (some (record { db = db; file_name = file_name_of db_name }))) (sym e) tt;
  input_le = h;
}

-- The bytes of a file come into the open table only.
pub seen_by-Follows :
    (st st' : Session) (db_name bytes : List ℕ)
    → st'.master_db ≡ seen_by db_name bytes st.master_db
    → length st'.input ≤ length st.input
    → Follows st st'
seen_by-Follows st st' db_name bytes e h = record {
  own = λ own. subst IsOwn (sym e) ((both st.master_db).0 own);
  keeps = subst (Keeps st.master_db) (sym e) (both st.master_db).1;
  input_le = h;
}
  where
    both :
        (o : Option Master)
        → (IsOwn o → IsOwn (seen_by db_name bytes o)) × Keeps o (seen_by db_name bytes o)
    both none = (λ own. own, tt)
    both (some m) = elim (Bool-cases (same m.file_name (file_name_of db_name))) [
      | inl k ↦ rw k (λ own. own, (refl, refl))
      | inr k ↦ rw k (λ own. own, (refl, refl))
    ]

pub Follows-trans : (a b c : Session) → Follows a b → Follows b c → Follows a c
Follows-trans a b c h k = record {
  own = λ own. k.own (h.own own);
  keeps = through a.master_db b.master_db c.master_db h.keeps k.keeps;
  input_le = omega (arith, h.input_le, k.input_le);
}
  where
    through : (o p q : Option Master) → Keeps o p → Keeps p q → Keeps o q
    through none p q x y = tt
    through (some m) none q x y = absurd x
    through (some m) (some n) none x y = absurd y
    through (some m) (some n) (some l) x y = (y.0 ∙ x.0, y.1 ∙ x.1)

-- Other files do not matter.
pub Follows-put :
    {st : Session} (st' : Session) (db_name : List ℕ) (f : Folder)
    → Follows st st'
    → Follows st (put_files db_name f st')
Follows-put st' db_name f h = record { own = h.own; keeps = h.keeps; input_le = h.input_le }

-- Where a command leaves a session, that fulfils `P`; where a load loop has used up its rounds, `L` holds.
pub data OnRan (L : Type 0) (P : Session → Type 0) : Ran → Type 0 where
  goes_on : {st : Session} {message : Message} → P st → OnRan L P (continues st message)
  at_exit : {st : Session} → P st → OnRan L P (exits st)
  in_server : {port : ℕ} {st : Session} → P st → OnRan L P (serves port st)
  at_abort : {st : Session} → P st → OnRan L P (aborts st)
  in_undefined : OnRan L P undefined
  in_detached : OnRan L P detached
  in_running : L → OnRan L P running

module _ {L : Type 0} (P : Session → Type 0) where
  pub OnRan-if : (b : Bool) (p q : Ran) → OnRan L P p → OnRan L P q → OnRan L P (if b then p else q)
  OnRan-if true p q h k = h
  OnRan-if false p q h k = k

  pub OnRan-conversion {ℓ} :
      {A : Type ℓ} (o : Option (A × List ℕ)) (otherwise : Ran) (more : A → List ℕ → Ran)
      → OnRan L P otherwise
      → ((a : A) (rest : List ℕ) → OnRan L P (more a rest))
      → OnRan L P (conversion o otherwise more)
  OnRan-conversion none otherwise more h k = h
  OnRan-conversion (some (a, rest)) otherwise more h k = k a rest

  pub OnRan-behind_words :
      (command : List ℕ) (otherwise : Ran) (go : List ℕ → Ran)
      → OnRan L P otherwise
      → ((text : List ℕ) → OnRan L P (go text))
      → OnRan L P (behind_words command otherwise go)
  OnRan-behind_words command otherwise go h k =
      OnRan-conversion (skip_word command) otherwise
        (λ first rest. conversion (skip_word rest) otherwise (λ second rest'. go rest')) h
        (λ first rest.
          OnRan-conversion (skip_word rest) otherwise (λ second rest'. go rest') h
            (λ second rest'. k rest'))

  pub OnRan-with_master :
      (st : Session) (o : Option Master) (go : Master → Ran)
      → P st
      → ((m : Master) → o ≡ some m → OnRan L P (go m))
      → OnRan L P (with_master st o go)
  OnRan-with_master st none go h k = goes_on h
  OnRan-with_master st (some m) go h k = k m refl

  pub OnRan-without_master :
      (st : Session) (o : Option Master) (go : Ran)
      → P st
      → (o ≡ none → OnRan L P go)
      → OnRan L P (without_master st o go)
  OnRan-without_master st none go h k = k refl
  OnRan-without_master st (some m) go h k = goes_on h

  pub OnRan-with_vector :
      (st : Session) (n : ℕ) (v : VectorRead) (go : Session → List ℕ → Ran)
      → Leaves n v
      → ((rest : List ℕ) → length rest ≤ n → P (record st { input = rest }))
      → ((xs rest : List ℕ) → length rest ≤ n → OnRan L P (go (record st { input = rest }) xs))
      → OnRan L P (with_vector st v go)
  OnRan-with_vector st n (floats xs rest) go (with_floats l) h k = k xs rest l
  OnRan-with_vector st n (no_number rest) go (without l) h k = goes_on (h rest l)
  OnRan-with_vector st n Scan.undefined go nowhere h k = in_undefined
