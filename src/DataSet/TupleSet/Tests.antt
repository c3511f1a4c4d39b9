-- ===== src/DataSet/TupleSet/Tests.antt =====
-- TupleSet.js on a small axis: four years, read two at a time.
use huey.Base.{
  ℕ, ◌+◌, ◌≡◌, refl, false, none, some, List, [], ◌∷◌, String, arith, get_elem?, take, drop, ltb,
  if◌then◌else◌, inl,
}
use huey.Base.Result.{ok, throw, error}
use huey.Base.JsMap
use huey.Base.Sparse
use huey.Base.Sparse.{Sparse}
use huey.DataSet.Limits.{CacheSettings, whole, get_max_cache_entries, get_max_cache_size_bytes}
use huey.DataSet.Sizes.{sum_over}
use huey.DataSet.TupleSet.{
  Tuple, TupleSet, Backend, touch_tuple, store_tuple, remove_tuple, over_limits,
  enforce_cache_limits, get_tuples_sync, cache_size,
}
use huey.DataSet.TupleSet.Load.{to_tuple, load_tuples}
use huey.DataSet.TupleSet.Paging.{get_tuples, scan}
use huey.DataSet.TupleSet.Cache.{IsConsistent}
use huey.DataSet.TupleSet.Eviction.{EvictsOldest, enforce_cache_limits-EvictsOldest}
use huey.DataSet.TupleSet.Window.{IsWindow, scan-IsWindow}
use huey.DataSet.TupleSet.Stored.{store_all, store_all-IsConsistent}
use huey.DataSet.TupleSet.Correct.{Serves, IsFaithful}
use huey.DataSet.TupleSet.Answer.{Answers, get_tuples-Answers, get_tuples_complete}
use huey.DataSet.TupleSet.Reach.{
  empty, Call, clear_cache, read, read_one, fetch, run, run-IsConsistent,
  get_tuples_sync-IsConsistent,
}
use huey.DataSet.TupleSet.Measured.{IsMeasured, text_size}

abbrev key_size : ℕ → ℕ
key_size k = 3

abbrev tuple_size : Tuple ℕ → ℕ
tuple_size t = 20

abbrev number_of : ℕ → ℕ
number_of n = n

abbrev all : List (String → ℕ)
all = (λ f. 2020) ∷ (λ f. 2021) ∷ (λ f. 2022) ∷ (λ f. 2023) ∷ []

abbrev year : ℕ → Tuple ℕ
year n = record { values = n ∷ []; grouping_id = none }

abbrev rows : List (Tuple ℕ)
rows = year 2020 ∷ year 2021 ∷ year 2022 ∷ year 2023 ∷ []

abbrev backend : Backend ℕ
backend = record {
  count_rows = ok (some 4);
  page = λ limit offset.
      ok (some (record { fields = "year" ∷ []; rows = take limit (drop offset all) }));
  canceled = false;
}

serves : Serves number_of backend 1 rows
unfolding to_tuple
serves = record {
  first = "year";
  rest = [];
  all = all;
  page = λ limit offset. refl;
  counts = refl;
  converts = (refl, (refl, (refl, (refl, tt))));
  running = refl;
}

abbrev roomy : CacheSettings
roomy = record { max_cache_entries = some (whole 10); max_cache_size_mb = none }

-- At most two tuples are kept.
abbrev tight : CacheSettings
tight = record { max_cache_entries = some (whole 2); max_cache_size_mb = none }

empty-IsConsistent : (settings : CacheSettings) → IsConsistent {V = ℕ} (empty settings)
unfolding JsMap.IsUnique JsMap.get sum_over Sparse.get
empty-IsConsistent settings = record {
  order_unique = tt;
  sizes_unique = tt;
  sized = λ k. refl;
  stored = λ k. refl;
  same_length = refl;
  total = refl;
}

empty-IsFaithful : (settings : CacheSettings) → IsFaithful (empty settings) rows
unfolding Sparse.get
empty-IsFaithful settings = record { at_index = λ j t e. cc }

program : Unit {0}
unfolding get_tuples load_tuples store_tuple touch_tuple enforce_cache_limits Sparse.slice
    Sparse.get Sparse.set JsMap.set JsMap.get JsMap.delete over_limits remove_tuple
    get_max_cache_entries get_max_cache_size_bytes to_tuple
program = tt

-- With room for two, the third year drives the first out.
abbrev after_third : TupleSet ℕ
after_third =
    (get_tuples key_size tuple_size number_of backend 1
      (get_tuples key_size tuple_size number_of backend 1 (empty tight) 2 0).0 1 2).0

evicts_first : after_third.tuples ≡ none ∷ none ∷ some (year 2022) ∷ some (year 2023) ∷ []
unfolding program
evicts_first = refl

get_tuples-Answers_example :
    (s' : TupleSet ℕ) × (tuples : Sparse (Tuple ℕ)) × (get_tuples key_size tuple_size number_of
        backend 1
        (empty tight)
        3
        0
      ≡ (s', ok tuples))
    × Answers rows 0 s' tuples
get_tuples-Answers_example =
    get_tuples-Answers key_size tuple_size number_of backend 1 rows serves (empty tight) 3 0
      (empty-IsConsistent tight) (empty-IsFaithful tight)

get_tuples_complete_example :
    (s' : TupleSet ℕ) × (tuples : Sparse (Tuple ℕ)) × (get_tuples key_size tuple_size number_of
        backend 1
        (empty roomy)
        3
        0
      ≡ (s', ok tuples))
    × ((i : ℕ) → Sparse.get tuples i ≡ (if ltb i 3 then get_elem? rows (0 + i) else none))
unfolding program serves store_all
get_tuples_complete_example =
    get_tuples_complete key_size tuple_size number_of backend 1 rows serves (empty roomy) 3 0
      (empty-IsConsistent roomy) (empty-IsFaithful roomy) (inl refl)
      (λ first last e.
        let at_first : first ≡ 0 = ground arith in
        let at_last : last ≡ 2 = ground arith in rw (at_first, at_last))

-- A data source whose queries fail.
abbrev failing : Backend ℕ
failing = record {
  count_rows = throw (error "count");
  page = λ limit offset. throw (error "page");
  canceled = false;
}

abbrev calls : List (Call ℕ)
calls =
    fetch backend 3 0
    ∷ fetch failing 2 3
    ∷ read 0 2
    ∷ fetch backend 2 2
    ∷ read_one 1
    ∷ clear_cache
    ∷ []

abbrev after_calls : TupleSet ℕ
after_calls = run key_size tuple_size number_of 1 (empty tight) calls

empty-IsMeasured : IsMeasured key_size tuple_size (empty tight)
unfolding JsMap.get Sparse.get
empty-IsMeasured = record { recorded = λ j. refl }

run-IsConsistent_example :
    IsConsistent after_calls
    × IsMeasured key_size tuple_size after_calls
    × (cache_size after_calls ≡ text_size key_size tuple_size after_calls)
run-IsConsistent_example =
    run-IsConsistent key_size tuple_size number_of 1 calls (empty tight) (empty-IsConsistent tight)
      empty-IsMeasured

-- A cache of three tuples under limits for two.
abbrev three : TupleSet ℕ
three = store_all key_size tuple_size 0 (take 3 rows) (empty tight)

three-IsConsistent : IsConsistent three
three-IsConsistent =
    store_all-IsConsistent key_size tuple_size 0 (take 3 rows) (empty tight)
      (empty-IsConsistent tight)

enforce_cache_limits-EvictsOldest_example :
    EvictsOldest three (enforce_cache_limits three) × IsConsistent (enforce_cache_limits three)
enforce_cache_limits-EvictsOldest_example =
    enforce_cache_limits-EvictsOldest three three-IsConsistent

scan-IsWindow_example : IsWindow after_third.tuples 0 3 0 1
unfolding program scan
scan-IsWindow_example =
    scan-IsWindow after_third.tuples 0 3 0 3 [] (omega arith) (λ j low high. absurd (omega arith)) 0
      1 refl

get_tuples_sync-IsConsistent_example :
    IsConsistent (get_tuples_sync three 1 3).0
    × ((get_tuples_sync three 1 3).0.tuples ≡ three.tuples)
    × ((i : ℕ)
        → Sparse.get (get_tuples_sync three 1 3).1 i
          ≡ (if ltb (1 + i) 3 then Sparse.get three.tuples (1 + i) else none))
get_tuples_sync-IsConsistent_example = get_tuples_sync-IsConsistent three 1 3 three-IsConsistent
