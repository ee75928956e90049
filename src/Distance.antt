-- ===== src/Distance.antt =====
-- include/distance.h and src/distance.c: the metrics, by the floats of `Floats`.
use vecdb.Prelude.{ℕ, zero, suc, ◌+◌, ◌%◌, ◌^◌, List, ◌||◌, if◌then◌else◌, ltb, get_or}
use vecdb.Prelude.Bytes.{u32_mod}
use vecdb.Floats.{Floats}

pub data MetricType : Type 0 where
  metric_cosine metric_euclidean : MetricType
  other : ℕ → MetricType

-- `Distance_func`
abbrev pub DistanceFunc : Type 0
DistanceFunc = ℕ → List ℕ → List ℕ → ℕ

-- The rounds of `for (int i = 0; i < dim; i++)`, with the `uint64_t` dimension made an `int`.
unfoldable pub rounds : ℕ → ℕ
rounds dimension = let dim = dimension % u32_mod in if ltb dim (2 ^ 31) then dim else 0

pub record Sums : Type 0 where
  pub mod_a : ℕ
  pub mod_b : ℕ
  pub dot_product : ℕ

module _ (F : Floats) where
  -- `vec[i]`; the arrays hold `dim` floats.
  abbrev pub at : List ℕ → ℕ → ℕ
  at vec i = get_or vec i F.zero_f

  unfoldable pub cosine_loop : ℕ → ℕ → List ℕ → List ℕ → Sums → Sums
  cosine_loop zero i vec query s = s
  cosine_loop (suc n) i vec query s = cosine_loop n (i + 1) vec query (record {
    mod_a = F.add s.mod_a (F.mul (at vec i) (at vec i));
    mod_b = F.add s.mod_b (F.mul (at query i) (at query i));
    dot_product = F.add s.dot_product (F.mul (at vec i) (at query i));
  })

  -- What `cosine` makes of the three sums: 1 if a vector is zero, else one minus the similarity.
  unfoldable pub cosine_of : Sums → ℕ
  cosine_of s =
      if F.eq s.mod_a F.zero_f || F.eq s.mod_b F.zero_f
      then F.one_f
      else F.sub F.one_f (F.div s.dot_product (F.mul (F.sqrtf s.mod_a) (F.sqrtf s.mod_b)))

  unfoldable pub cosine : DistanceFunc
  unfolding cosine_loop cosine_of rounds
  cosine dim vec query = cosine_of (
      cosine_loop (rounds dim) 0 vec query
        (record { mod_a = F.zero_f; mod_b = F.zero_f; dot_product = F.zero_f }))

  unfoldable pub euclidean_loop : ℕ → ℕ → List ℕ → List ℕ → ℕ → ℕ
  euclidean_loop zero i vec query final_sum = final_sum
  euclidean_loop (suc n) i vec query final_sum =
      let d = F.sub (at query i) (at vec i) in
      euclidean_loop n (i + 1) vec query (F.add final_sum (F.mul d d))

  unfoldable pub euclidean : DistanceFunc
  unfolding euclidean_loop rounds
  euclidean dim vec query = F.sqrtf (euclidean_loop (rounds dim) 0 vec query F.zero_f)

  unfoldable pub get_distance : MetricType → DistanceFunc
  unfolding cosine euclidean
  get_distance metric_cosine = cosine
  get_distance metric_euclidean = euclidean
  get_distance (other n) = cosine
