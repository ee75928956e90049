-- ===== src/Server/Request.antt =====
-- src/parser.c: the requests in a body, and the results as JSON. cJSON is a parameter.
pub mod Bounds
use vecdb.Prelude.{ℕ, zero, suc, ◌+◌, ◌*◌, ◌%◌, List, [], ◌∷◌, Option, none, some}
use vecdb.Prelude.{Bool, true, false, ◌&&◌, ◌||◌, not, if◌then◌else◌, ◌==◌, length, take}
use vecdb.Prelude.Bytes.{u64_mod, u32_mod}
use vecdb.Storage.Types.{Env}
use vecdb.Search.TopK.{SearchResult}
use vecdb.Search.Flat.{strdup}
use vecdb.Server.Text.{codes}

-- What the parser calls of cJSON, and the machine's conversions from `double`. A value is a pointer to
-- a `cJSON`, a missing one `none`; `valuestring` is `none` for NULL. `valueint` is the `int` as it reads
-- in 32 bits; a conversion out of the range of its type is undefined, `none`.
pub record Json : Type 1 where
  pub Value : Type 0
  pub parse : List ℕ → Option Value
  pub item : Value → List ℕ → Option Value
  pub is_string : Value → Bool
  pub is_number : Value → Bool
  pub is_bool : Value → Bool
  pub is_true : Value → Bool
  pub is_array : Value → Bool
  pub valuestring : Value → Option (List ℕ)
  pub valueint : Value → ℕ
  pub valuedouble : Value → ℕ
  pub array_size : Value → ℕ
  pub array_item : Value → ℕ → Option Value
  pub to_float : ℕ → ℕ
  pub to_u32 : ℕ → Option ℕ
  pub to_u64 : ℕ → Option ℕ
  pub of_u64 : ℕ → ℕ
  pub of_float : ℕ → ℕ
  pub create_array : Value
  pub create_object : Value
  pub add_number : Value → List ℕ → ℕ → Value
  pub add_string : Value → List ℕ → List ℕ → Value
  pub add_null : Value → List ℕ → Value
  pub add_item : Value → Value → Value
  pub print_unformatted : Value → Option (List ℕ)

pub record InsertReq : Type 0 where
  pub db_name : List ℕ
  pub id : ℕ
  pub dimension : ℕ
  pub vector : List ℕ
  pub metadata : Option (List ℕ)

pub record SearchReq : Type 0 where
  pub db_name : List ℕ
  pub top_k : ℕ
  pub nprobe : ℕ
  pub use_ann : Bool
  pub dimension : ℕ
  pub query_vector : List ℕ

pub record TrainReq : Type 0 where
  pub db_name : List ℕ
  pub k : ℕ
  pub max_iterations : ℕ

pub record DeleteReq : Type 0 where
  pub db_name : List ℕ
  pub id : ℕ

-- A request, NULL, or undefined behaviour: a block that is written to without a look at what its
-- allocation gave, or a number that does not fit.
pub data Parsed {ℓ} (A : Type ℓ) : Type ℓ where
  request : A → Parsed A
  refused : Parsed A
  undefined : Parsed A

module _ (J : Json) where
  -- A test of a value that may be missing.
  abbrev pub holds : (J.Value → Bool) → Option J.Value → Bool
  holds test none = false
  holds test (some v) = test v

  abbrev pub number_of : {A : Type 0} → A → (J.Value → A) → Option J.Value → A
  number_of missing read none = missing
  number_of missing read (some v) = read v

  -- The 99 characters that `db_name` has room for; `none` is a string without a text.
  unfoldable pub name_of : Option J.Value → Option (List ℕ)
  name_of none = none
  name_of (some v) = elim (J.valuestring v) [ none ↦ none | some name ↦ some (take 99 name) ]

  -- The loop over the array, from index `i` on; `written` says whether the vector has a block.
  unfoldable pub read_vector : Bool → J.Value → ℕ → ℕ → Parsed (List ℕ)
  read_vector written vec_array zero i = request []
  read_vector written vec_array (suc n) i =
      let rest = read_vector written vec_array n (i + 1) in
      elim (J.array_item vec_array i) [
        | none ↦ refused
        | some item ↦
            if J.is_number item
            then (if written
                then (elim rest [
                  | request ws ↦ request (J.to_float (J.valuedouble item) ∷ ws)
                  | refused ↦ refused
                  | undefined ↦ undefined
                ])
                else undefined)
            else refused
      ]

  -- A field of the parsed body.
  abbrev pub field : J.Value → List ℕ → Option J.Value
  field json name = J.item json name

  abbrev pub vector_of : Env → Option J.Value → Parsed (List ℕ)
  vector_of env none = refused
  vector_of env (some a) =
      read_vector (env.malloc (J.array_size a * 4 % u64_mod)) a (J.array_size a) 0

abbrev pub and_then {ℓ κ} : {A : Type ℓ} {B : Type κ} → Parsed A → (A → Parsed B) → Parsed B
and_then (request a) f = f a
and_then refused f = refused
and_then undefined f = undefined

-- A value without which the next step is undefined.
abbrev pub needs {ℓ κ} : {A : Type ℓ} {B : Type κ} → Option A → (A → Parsed B) → Parsed B
needs none f = undefined
needs (some a) f = f a

-- The block of a request, of so many bytes.
abbrev pub block {ℓ} : {A : Type ℓ} → Env → ℕ → Parsed A → Parsed A
block env size p = if env.malloc size then p else undefined

module _ (J : Json) (env : Env) where
  unfoldable pub parse_search_request : List ℕ → Parsed SearchReq
  unfolding name_of read_vector
  parse_search_request json_body = elim (J.parse json_body) [
    | none ↦ refused
    | some json ↦
        let db_name = field J json (codes "db_name") in
        let top_k = field J json (codes "top_k") in
        let use_ann = field J json (codes "use_ann") in
        let vec_array = field J json (codes "query_vector") in
        let nprobe = field J json (codes "nprobe") in
        if not (holds J J.is_string db_name)
          || not (holds J J.is_number top_k)
          || not (holds J J.is_bool use_ann)
          || not (holds J J.is_array vec_array)
        then refused
        else block env 128 (
            needs (name_of J db_name) (λ name. and_then (vector_of J env vec_array) (λ ws.
              request (record {
                db_name = name;
                top_k = number_of J 0 J.valueint top_k;
                nprobe = if holds J J.is_number nprobe then number_of J 1 J.valueint nprobe else 1;
                use_ann = holds J J.is_true use_ann;
                dimension = number_of J 0 J.array_size vec_array;
                query_vector = ws;
              }))))
  ]

  -- `metadata`, where it is a string and `strdup` succeeds.
  unfoldable pub metadata_of : Option J.Value → Option (List ℕ)
  unfolding strdup
  metadata_of none = none
  metadata_of (some v) =
      if J.is_string v
      then (elim (J.valuestring v) [
        | none ↦ none
        | some text ↦ if env.malloc (length text + 1) then some text else none
      ])
      else none

  -- The name is copied twice, to the same effect.
  unfoldable pub parse_insert_request : List ℕ → Parsed InsertReq
  unfolding name_of read_vector metadata_of
  parse_insert_request json_body = elim (J.parse json_body) [
    | none ↦ refused
    | some json ↦
        let db_name = field J json (codes "db_name") in
        let id = field J json (codes "id") in
        let vec_array = field J json (codes "vector") in
        let metadata = field J json (codes "metadata") in
        if not (holds J J.is_string db_name)
          || not (holds J J.is_number id)
          || not (holds J J.is_array vec_array)
        then refused
        else block env 128 (
            needs (name_of J db_name) (λ name.
              needs (number_of J none (λ v. J.to_u32 (J.valuedouble v)) id) (λ n.
                and_then (vector_of J env vec_array) (λ ws. request (record {
                  db_name = name;
                  id = n;
                  dimension = number_of J 0 J.array_size vec_array;
                  vector = ws;
                  metadata = metadata_of metadata;
                })))))
  ]

  unfoldable pub parse_train_request : List ℕ → Parsed TrainReq
  unfolding name_of
  parse_train_request json_body = elim (J.parse json_body) [
    | none ↦ refused
    | some json ↦
        let db_name = field J json (codes "db_name") in
        let k = field J json (codes "k") in
        let max_iterations = field J json (codes "max_iterations") in
        if not (holds J J.is_string db_name)
          || not (holds J J.is_number k)
          || not (holds J J.is_number max_iterations)
        then refused
        else block env 120 (
            needs (name_of J db_name) (λ name.
              needs (number_of J none (λ v. J.to_u64 (J.valuedouble v)) k) (λ n.
                needs (number_of J none (λ v. J.to_u64 (J.valuedouble v)) max_iterations)
                  (λ m. request (record { db_name = name; k = n; max_iterations = m })))))
  ]

  unfoldable pub parse_delete_request : List ℕ → Parsed DeleteReq
  unfolding name_of
  parse_delete_request json_body = elim (J.parse json_body) [
    | none ↦ refused
    | some json ↦
        let db_name = field J json (codes "db_name") in
        let id = field J json (codes "id") in
        if not (holds J J.is_string db_name) || not (holds J J.is_number id)
        then refused
        else block env 112 (
            needs (name_of J db_name) (λ name.
              needs (number_of J none (λ v. J.to_u32 (J.valuedouble v)) id)
                (λ n. request (record { db_name = name; id = n }))))
  ]

-- One object of the answer.
unfoldable pub result_json : (J : Json) → SearchResult → J.Value
result_json J r =
    let item =
      J.add_number (J.add_number J.create_object (codes "id") (J.of_u64 r.id)) (codes "distance")
        (J.of_float r.calculated_distance) in
    elim r.metadata [
      | none ↦ J.add_null item (codes "metadata")
      | some text ↦ J.add_string item (codes "metadata") text
    ]

-- The loop: a result with the id 0 is left out.
unfoldable pub results_json : (J : Json) → List SearchResult → J.Value → J.Value
unfolding result_json
results_json J [] json_response = json_response
results_json J (r ∷ more) json_response =
    results_json J more
      (if not (r.id == 0) then J.add_item json_response (result_json J r) else json_response)

-- `serialize_search_results` of an array that is there, which has the `count` results.
unfoldable pub serialize_search_results : Json → List SearchResult → Option (List ℕ)
unfolding results_json
serialize_search_results J results =
    if length results == 0
    then none
    else J.print_unformatted (results_json J results J.create_array)
