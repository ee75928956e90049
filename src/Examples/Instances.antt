-- ===== src/Examples/Instances.antt =====
-- Values of what the model takes as given: an arithmetic, a sorting library, an environment that grants
-- everything.
use vecdb.Prelude.{ℕ, ◌+◌, ◌-◌, ◌*◌, ◌≡◌, refl, arith, List, [], ◌∷◌, Option, none, some}
use vecdb.Prelude.{true, false, if◌then◌else◌, ltb, ◌==◌, inl, inr, Bool-cases}
use vecdb.Floats.{Floats, IsOrdered}
use vecdb.Pending.{
  Comparison, Sorting, IsOrder, IsAscending, is_gt, is_eq, is_some, count, any_equal,
}
use vecdb.Storage.Types.{Env}
use vecdb.Storage.Compact.{CompactHost}
use vecdb.Storage.Compact.Result.{Grants}
use vecdb.Db.Init.{Host}

-- The patterns of the floats that are not negative are ordered as numbers are.
abbrev pub plain_floats : Floats
plain_floats = record {
  add = ◌+◌;
  sub = λ a b. a - b + (b - a);
  mul = ◌*◌;
  div = λ a b. a;
  sqrtf = λ a. a;
  lt = ltb;
  eq = ◌==◌;
  zero_f = 0;
  one_f = 1;
  flt_max = 0x7f7f_ffff;
  far = 0x7149_f2ca;
}

pub plain_floats-IsOrdered : IsOrdered plain_floats
plain_floats-IsOrdered = record {
  is_nan = λ a. false;
  lt_irrefl = λ a. ground arith;
  lt_trans = λ a b c h k. ground arith;
  lt_number = λ a b h. refl;
  lt_between = λ a b c h number. ground arith;
  flt_max_number = refl;
  far_number = refl;
}

unfoldable pub place : Comparison → ℕ → List ℕ → List ℕ
place cmp x [] = x ∷ []
place cmp x (y ∷ ys) = let rest = place cmp x ys in if is_gt (cmp x y) then y ∷ rest else x ∷ y ∷ ys

unfoldable pub sort : Comparison → List ℕ → List ℕ
sort cmp [] = []
sort cmp (x ∷ xs) = place cmp x (sort cmp xs)

unfoldable pub find : Comparison → ℕ → List ℕ → Option ℕ
find cmp key [] = none
find cmp key (x ∷ xs) = let rest = find cmp key xs in if is_eq (cmp key x) then some x else rest

place-count :
    (cmp : Comparison) (x y : ℕ) (ys : List ℕ) → count x (place cmp y ys) ≡ count x (y ∷ ys)
unfolding place
place-count cmp x y [] = refl
place-count cmp x y (z ∷ zs) = elim (Bool-cases (is_gt (cmp y z))) [
  | inl h ↦ rw h (omega (arith, place-count cmp x y zs))
  | inr h ↦ rw h refl
]

pub sort-count : (cmp : Comparison) (x : ℕ) (xs : List ℕ) → count x (sort cmp xs) ≡ count x xs
unfolding sort
sort-count cmp x [] = refl
sort-count cmp x (y ∷ ys) = omega (arith, place-count cmp x y (sort cmp ys), sort-count cmp x ys)

place-IsAscending :
    (cmp : Comparison) (x : ℕ) (ys : List ℕ)
    → IsOrder cmp
    → IsAscending cmp ys
    → IsAscending cmp (place cmp x ys)
unfolding place
place-IsAscending cmp x [] o h = tt
place-IsAscending cmp x (y ∷ []) o h = elim (Bool-cases (is_gt (cmp x y))) [
  | inl g ↦ rw g (o.turned x y g, tt)
  | inr g ↦ rw g (g, tt)
]
place-IsAscending cmp x (y ∷ z ∷ zs) o h = elim (Bool-cases (is_gt (cmp x y))) [
  | inl g ↦ (elim (Bool-cases (is_gt (cmp x z))) [
    | inl k ↦ rw (g, k) (h.0, rw k at (place-IsAscending cmp x (z ∷ zs) o h.1))
    | inr k ↦ rw (g, k) (o.turned x y g, (k, h.1))
  ])
  | inr g ↦ rw g (g, h)
]

pub sort-IsAscending :
    (cmp : Comparison) (xs : List ℕ) → IsOrder cmp → IsAscending cmp (sort cmp xs)
unfolding sort
sort-IsAscending cmp [] o = tt
sort-IsAscending cmp (x ∷ xs) o =
    place-IsAscending cmp x (sort cmp xs) o (sort-IsAscending cmp xs o)

pub find_lem :
    (cmp : Comparison) (key : ℕ) (xs : List ℕ) → is_some (find cmp key xs) ≡ any_equal cmp key xs
unfolding find
find_lem cmp key [] = refl
find_lem cmp key (x ∷ xs) = elim (Bool-cases (is_eq (cmp key x))) [
  | inl h ↦ rw h refl
  | inr h ↦ rw h (find_lem cmp key xs)
]

abbrev pub plain_sorting : Sorting
plain_sorting = record {
  qsort = sort;
  bsearch = find;
  qsort_count = sort-count;
  qsort_ascending = sort-IsAscending;
  bsearch_finds = λ cmp key xs h. find_lem cmp key xs;
}

abbrev pub granting : Env
granting = record { malloc = λ n. true; mmap = λ n. true }

abbrev pub granting_host : CompactHost
granting_host = record {
  env = granting;
  opens = true;
  allocates = true;
  renames = true;
  reopens = true;
}

pub granting_host-Grants : Grants granting_host
granting_host-Grants = record { opens = refl; allocates = refl; renames = refl; reopens = refl }

abbrev pub table_host : Host
table_host = record { env = granting; opens_data = true; writes_meta = true; room = 4096 }
