-- ===== src/Corpus/Tests.antt =====
-- A corpus with two test cases, and the theorems about it at concrete inputs.
use ityfuzz.Prelude.{ℕ, ◌≡◌, refl, arith, nat_eq}
use ityfuzz.Corpus.{IndexedInMemoryCorpus, new, count, add, first}
use ityfuzz.Corpus.Laws.{IsIndexed, new-IsIndexed, add-IsIndexed}
use ityfuzz.Corpus.Walk.{walk, range_from, walk-first}

abbrev one : IndexedInMemoryCorpus ℕ
one = (add new 7).0

abbrev two : IndexedInMemoryCorpus ℕ
two = (add one 8).0

one-IsIndexed : IsIndexed one
unfolding add new
one-IsIndexed = add-IsIndexed new 7 (omega arith) new-IsIndexed

add_runs : (add one 8).1 ≡ 1
unfolding add new
add_runs = refl

walk-first_example : walk 3 two (first two) ≡ range_from (count two) 0
unfolding add new count
walk-first_example = walk-first two (omega arith) 3 (omega arith)
