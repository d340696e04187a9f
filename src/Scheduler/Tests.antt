-- ===== src/Scheduler/Tests.antt =====
-- The scheduler at a tree with two nodes and at data with two entries.
mod Adds
use ityfuzz.Prelude.{
  contains, ℕ, ◌+◌, ◌%◌, ◌≤◌, ◌<◌, ◌≡◌, ◌≢◌, refl, Bool, true, false, ◌||◌, Option, none, some,
  List, [], ◌∷◌, arith, word, ◌==◌, get, insert, erase, nat_eq, inl, inr, if◌then◌else◌, length,
  Unique, ap, not, leb,
}
use std.Path.{subst}
use ityfuzz.Scheduler.Deps.{
  DependencyTree, new, fresh_node, add_node, remove_node, garbage_collection, for_ancestors,
}
use ityfuzz.Scheduler.Deps.Paths.{Chain, root, up}
use ityfuzz.Scheduler.Deps.Counts.{Live, Refines, Refines-new}
use ityfuzz.Scheduler.Deps.Growth.{add_node-Refines, remove_node-Refines}
use ityfuzz.Scheduler.Deps.Garbage.{garbage_at, get-garbage_collection, live_path_survives}
use ityfuzz.Scheduler.Votes.{VoteData, Float, vote, on_remove, next, sort_by_votes}
use ityfuzz.Scheduler.Votes.Totals.{
  IsConsistent, Descends, votes_sum, vote-IsConsistent, vote_absent, on_remove-IsConsistent,
  sort_by_votes-Descends,
}
use ityfuzz.Scheduler.Votes.Sampling.{next-IsConsistent}

-- The first node, below the root.
abbrev pub one_node : DependencyTree
one_node = (1, fresh_node 0) ∷ []

abbrev pub one_live : Live
one_live = (1, 1 ∷ []) ∷ []

Chain-root : {t : DependencyTree} {ps : List ℕ} (p : ℕ) → p ≡ 0 → Chain t p ps → ps ≡ []
Chain-root _ e root = refl
Chain-root _ e (up node pos here below c) = absurd (omega arith)

pub one_node-Refines : Refines one_node one_live
unfolding add_node for_ancestors insert new get
one_node-Refines =
    let (u, ps, runs, c, r) =
      add_node-Refines new [] 1 0 Refines-new (omega arith) refl (inl refl) (λ h. omega arith) in
    let same_tree : u ≡ one_node = cc in
    let same_path : insert 1 (1 ∷ ps) [] ≡ one_live =
      ap (λ ps. (1, 1 ∷ ps) ∷ []) (Chain-root 0 refl c) in
    subst (λ t. Refines t one_live) same_tree (subst (λ live. Refines u live) same_path r)

add_node-Refines_example :
    (u : DependencyTree) × (ps : List ℕ) × (add_node 2 1 one_node ≡ some u)
    × Chain one_node 1 ps
    × Refines u (insert 2 (2 ∷ ps) one_live)
unfolding get
add_node-Refines_example =
    add_node-Refines one_node one_live 2 1 one_node-Refines (omega arith) refl
      (inr (fresh_node 0, refl)) (λ h. omega arith)

remove_node-Refines_example :
    (u : DependencyTree) × (remove_node 1 one_node ≡ some u) × Refines u (erase 1 one_live)
unfolding get
remove_node-Refines_example =
    remove_node-Refines one_node one_live 1 (1 ∷ []) one_node-Refines (omega arith) refl

-- A node that is pending deletion and a live one.
abbrev two_nodes : DependencyTree
two_nodes =
    (4, record { parent = 1; ref_count = 0; pending_delete = true; never_delete = false })
    ∷ (1, fresh_node 0)
    ∷ []

live_path_survives_example : get 1 (garbage_collection one_node).1 ≡ some (fresh_node 0)
unfolding get
live_path_survives_example =
    live_path_survives 1 1 (1 ∷ []) one_node one_live (fresh_node 0) (refl, tt) one_node-Refines
      refl refl refl

abbrev ballot : VoteData
ballot = record {
  votes_and_visits = (5, (3, 1)) ∷ (6, (4, 0)) ∷ [];
  sorted_votes = 6 ∷ 5 ∷ [];
  visits_total = 2;
  votes_total = 8;
  deps = new;
  to_remove = [];
}

ballot-IsConsistent : IsConsistent ballot
unfolding get ityfuzz.Prelude.total
ballot-IsConsistent = record {
  distinct = (refl, (refl, tt));
  votes = refl;
  visits = refl;
  listed = λ i. ground arith;
}

vote-IsConsistent_example :
    (d : VoteData) × (vote ballot 5 2 ≡ some d)
    × IsConsistent d
    × Descends d.votes_and_visits d.sorted_votes
    × (get 5 d.votes_and_visits ≡ some ((3 + 2) % word, 1))
unfolding get
vote-IsConsistent_example = vote-IsConsistent ballot 5 2 3 1 ballot-IsConsistent refl

sort_by_votes-Descends_example :
    Descends ballot.votes_and_visits (sort_by_votes ballot.votes_and_visits (5 ∷ 6 ∷ []))
sort_by_votes-Descends_example = sort_by_votes-Descends ballot.votes_and_visits (5 ∷ 6 ∷ [])

abbrev whole_numbers : Float
whole_numbers = record {
  F64 = ℕ;
  of_ℕ = λ n. n;
  add = λ x y. x + y;
  mul = λ x y. x;
  div = λ x y. x;
  gtb = λ x y. not (leb x y);
}

next-IsConsistent_example :
    (d : VoteData) × (idx votes visits : ℕ) × (next whole_numbers 3 ballot ≡ some (d, idx))
    × (contains idx ballot.sorted_votes ≡ true)
    × (get idx ballot.votes_and_visits ≡ some (votes, visits))
    × (d.votes_and_visits ≡ insert idx (votes, (visits + 1) % word) ballot.votes_and_visits)
    × IsConsistent d
next-IsConsistent_example =
    next-IsConsistent whole_numbers 3 ballot 6 (5 ∷ []) ballot-IsConsistent refl refl
