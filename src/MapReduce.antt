-- ===== src/MapReduce.antt =====
-- SimpleMapReduce of source/multiprocessing/multiprocessing_mapreduce.py. The pool's map is taken as
-- the map in the order of the inputs, which is what its documentation promises.
mod Partition
mod Examples
use pymotw.Prelude.{Bool, true, false, List, [], ◌∷◌, ◌++◌, if◌then◌else◌, map}

module _ {K V : Type 0} (same : K → K → Bool) where
  -- partitioned_data[key].append(value), where a missing key has an empty list
  unfoldable pub append_value : K → V → List (K × List V) → List (K × List V)
  append_value key value [] = (key, value ∷ []) ∷ []
  append_value key value ((j, values) ∷ d) =
      let rest = append_value key value d in
      if same key j then (j, values ++ (value ∷ [])) ∷ d else (j, values) ∷ rest

  unfoldable pub partition_into : List (K × List V) → List (K × V) → List (K × List V)
  unfolding append_value
  partition_into d [] = d
  partition_into d ((key, value) ∷ mapped_values) =
      partition_into (append_value key value d) mapped_values

  unfoldable pub partition : List (K × V) → List (K × List V)
  unfolding partition_into
  partition mapped_values = partition_into [] mapped_values

  -- itertools.chain(*responses)
  unfoldable pub chain : List (List (K × V)) → List (K × V)
  chain [] = []
  chain (response ∷ responses) = response ++ chain responses

  -- SimpleMapReduce.__call__
  unfoldable pub call : {A R : Type 0} → (A → List (K × V)) → (K × List V → R) → List A → List R
  unfolding partition chain
  call map_func reduce_func inputs = map reduce_func (partition (chain (map map_func inputs)))
