-- ===== src/Server/Request/Bounds.antt =====
-- src/parser.c: what holds of every request that is parsed.
use vecdb.Prelude.{
  ℕ, zero, suc, ◌+◌, ◌≤◌, ◌≡◌, refl, ap, subst, arith, List, ◌∷◌, Option, none, some,
}
use vecdb.Prelude.{Bool, true, false, if◌then◌else◌, length, take, length-take}
use vecdb.Storage.Types.{Env}
use vecdb.Server.Text.{codes}
use vecdb.Server.Request.{Json, InsertReq, SearchReq, Parsed, request, refused, undefined}
use vecdb.Server.Request.{number_of, name_of, read_vector, field, vector_of, and_then, needs, block}
use vecdb.Server.Request.{parse_search_request, parse_insert_request}

-- What every request that is parsed fulfils.
abbrev OnRequest {ℓ} : {A : Type ℓ} → (A → Type 0) → Parsed A → Type 0
OnRequest P (request a) = P a
OnRequest P refused = Unit
OnRequest P undefined = Unit

module _ {ℓ} {A : Type ℓ} (P : A → Type 0) where
  on_if : (b : Bool) (p : Parsed A) → OnRequest P p → OnRequest P (if b then refused else p)
  on_if true p h = tt
  on_if false p h = h

  on_parse :
      {B : Type 0} (o : Option B) (f : B → Parsed A)
      → ((b : B) → OnRequest P (f b))
      → OnRequest P (elim o [ none ↦ refused | some b ↦ f b ])
  on_parse none f h = tt
  on_parse (some b) f h = h b

  on_block : (env : Env) (size : ℕ) (p : Parsed A) → OnRequest P p → OnRequest P (block env size p)
  on_block env size p h = by_memory (env.malloc size)
    where
      by_memory : (b : Bool) → OnRequest P (if b then p else undefined)
      by_memory true = h
      by_memory false = tt

  on_needs :
      {B : Type 0} (Q : B → Type 0) (o : Option B) (f : B → Parsed A)
      → ((b : B) → o ≡ some b → Q b)
      → ((b : B) → Q b → OnRequest P (f b))
      → OnRequest P (needs o f)
  on_needs Q none f h k = tt
  on_needs Q (some b) f h k = k b (h b refl)

  on_and_then :
      {B : Type 0} (Q : B → Type 0) (p : Parsed B) (f : B → Parsed A)
      → OnRequest Q p
      → ((b : B) → Q b → OnRequest P (f b))
      → OnRequest P (and_then p f)
  on_and_then Q (request b) f h k = k b h
  on_and_then Q refused f h k = tt
  on_and_then Q undefined f h k = tt

module _ (J : Json) (env : Env) where
  name_of-length : (o : Option J.Value) (name : List ℕ) → name_of J o ≡ some name → length name ≤ 99
  unfolding name_of
  name_of-length none name h = cc
  name_of-length (some v) name h = by_text (J.valuestring v) h
    where
      by_text :
          (t : Option (List ℕ))
          → (elim t [ none ↦ none | some text ↦ some (take 99 text) ]) ≡ some name
          → length name ≤ 99
      by_text none e = cc
      by_text (some text) e =
          subst (λ o. elim o [ none ↦ Unit | some l ↦ length l ≤ 99 ]) e
            (omega (arith, length-take 99 text))

  read_vector-length :
      (written : Bool) (a : J.Value) (n i : ℕ)
      → OnRequest (λ ws. length ws ≡ n) (read_vector J written a n i)
  unfolding read_vector
  read_vector-length written a zero i = refl
  read_vector-length written a (suc n) i =
      by_item (J.array_item a i) (read_vector-length written a n (i + 1))
    where
      by_number :
          (item : J.Value) (b w : Bool) (rest : Parsed (List ℕ))
          → OnRequest (λ ws. length ws ≡ n) rest
          → OnRequest
              (λ ws. length ws ≡ suc n)
              (if b
                then (if w
                    then (elim rest as (λ x. Parsed (List ℕ)) [
                      | request ws ↦ request (J.to_float (J.valuedouble item) ∷ ws)
                      | refused ↦ refused
                      | undefined ↦ undefined
                    ])
                    else undefined)
                else refused)
      by_number item true true (request ws) h = ap suc h
      by_number item true true refused h = tt
      by_number item true true undefined h = tt
      by_number item true false rest h = tt
      by_number item false w rest h = tt

      by_item :
          (o : Option J.Value)
          → OnRequest (λ ws. length ws ≡ n) (read_vector J written a n (i + 1))
          → OnRequest
              (λ ws. length ws ≡ suc n)
              (elim o as (λ x. Parsed (List ℕ)) [
                | none ↦ refused
                | some item ↦
                    if J.is_number item
                    then (if written
                        then (elim (read_vector J written a n (i + 1)) as (λ x. Parsed (List ℕ)) [
                          | request ws ↦ request (J.to_float (J.valuedouble item) ∷ ws)
                          | refused ↦ refused
                          | undefined ↦ undefined
                        ])
                        else undefined)
                    else refused
              ])
      by_item none h = tt
      by_item (some item) h = by_number item (J.is_number item) written _ h

  vector_of-length :
      (o : Option J.Value)
      → OnRequest (λ ws. length ws ≡ number_of J 0 J.array_size o) (vector_of J env o)
  vector_of-length none = tt
  vector_of-length (some a) = read_vector-length _ a (J.array_size a) 0

  -- The name leaves room for its NUL, and the vector has as many floats as its dimension says.
  abbrev pub Insertable : InsertReq → Type 0
  Insertable r = (length r.db_name ≤ 99) × (length r.vector ≡ r.dimension)

  abbrev pub Searchable : SearchReq → Type 0
  Searchable r = (length r.db_name ≤ 99) × (length r.query_vector ≡ r.dimension)

  on_insert : (body : List ℕ) → OnRequest Insertable (parse_insert_request J env body)
  unfolding parse_insert_request
  on_insert body = on_parse Insertable (J.parse body) _ (λ json. on_if Insertable _ _ (
      on_block Insertable env 128 _ (
        on_needs Insertable (λ name. length name ≤ 99) (name_of J (field J json (codes "db_name")))
          _ (name_of-length (field J json (codes "db_name")))
          (λ name h.
            on_needs Insertable (λ n. Unit)
              (number_of J none (λ v. J.to_u32 (J.valuedouble v)) (field J json (codes "id"))) _
              (λ n e. tt)
              (λ n u.
                on_and_then Insertable
                  (λ ws. length ws ≡ number_of J 0 J.array_size (field J json (codes "vector"))) _ _
                  (vector_of-length (field J json (codes "vector"))) (λ ws e. (h, e)))))))

  on_search : (body : List ℕ) → OnRequest Searchable (parse_search_request J env body)
  unfolding parse_search_request
  on_search body = on_parse Searchable (J.parse body) _ (λ json. on_if Searchable _ _ (
      on_block Searchable env 128 _ (
        on_needs Searchable (λ name. length name ≤ 99) (name_of J (field J json (codes "db_name")))
          _ (name_of-length (field J json (codes "db_name")))
          (λ name h.
            on_and_then Searchable
              (λ ws. length ws ≡ number_of J 0 J.array_size (field J json (codes "query_vector"))) _
              _ (vector_of-length (field J json (codes "query_vector"))) (λ ws e. (h, e))))))

  -- A search that is parsed from a body, whatever the JSON library gives and whichever allocation
  -- fails, has a name that leaves room for its NUL, and a vector of exactly as many floats as its
  -- dimension says.
  pub parse_search_request_bounds :
      (body : List ℕ) (r : SearchReq)
      → parse_search_request J env body ≡ request r
      → (length r.db_name ≤ 99) × (length r.query_vector ≡ r.dimension)
  parse_search_request_bounds body r h = subst (OnRequest Searchable) h (on_search body)

  -- An insertion that is parsed from a body, whatever the JSON library gives and whichever allocation
  -- fails, has a name that leaves room for its NUL, and a vector of exactly as many floats as its
  -- dimension says.
  pub parse_insert_request_bounds :
      (body : List ℕ) (r : InsertReq)
      → parse_insert_request J env body ≡ request r
      → (length r.db_name ≤ 99) × (length r.vector ≡ r.dimension)
  parse_insert_request_bounds body r h = subst (OnRequest Insertable) h (on_insert body)
