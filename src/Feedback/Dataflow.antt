-- ===== src/Feedback/Dataflow.antt =====
-- `DataflowFeedback` of src/feedback.rs. The arrays are functions of the index.
pub mod Flows
use ityfuzz.Prelude.{
  ℕ, zero, suc, ◌+◌, ◌*◌, ◌^◌, ◌≤◌, ◌<◌, ◌≡◌, refl, ◌∙◌, Bool, true, false, not, ◌||◌, ◌&&◌, ◌==◌,
  ltb, if◌then◌else◌, arith, update, ==_iff, Bool-cases, inl, inr,
}
use ityfuzz.Host.Maps.{map_size}

pub record DataflowFeedback : Type 0 where
  pub global_write_map : ℕ → ℕ → Bool
  pub read_map : ℕ → Bool
  pub write_map : ℕ → ℕ

-- The bucket of a written value: `2 << 2`, `2 << 4` and `2 << 6` are its bounds.
unfoldable pub category : ℕ → ℕ
category written =
    if ltb written (2 * 2 ^ 2)
    then 0
    else if ltb written (2 * 2 ^ 4)
    then 1
    else if ltb written (2 * 2 ^ 6)
    then 2
    else 3

abbrev pub mark : ℕ → ℕ → (ℕ → ℕ → Bool) → ℕ → ℕ → Bool
mark i c map = update i (update c true (map i)) map

-- One round of the loop: `interesting` and the global map
unfoldable pub round : (ℕ → Bool) → (ℕ → ℕ) → ℕ → Bool × (ℕ → ℕ → Bool) → Bool × (ℕ → ℕ → Bool)
round read_map write_map i (interesting, global) =
    if read_map i && not (write_map i == 0)
    then if global i (category (write_map i))
      then (interesting, global)
      else (true, mark i (category (write_map i)) global)
    else (interesting, global)

-- The rounds for the indices below the bound
unfoldable pub rounds : (ℕ → Bool) → (ℕ → ℕ) → ℕ → Bool × (ℕ → ℕ → Bool) → Bool × (ℕ → ℕ → Bool)
unfolding round
rounds read_map write_map zero s = s
rounds read_map write_map (suc i) s = round read_map write_map i (rounds read_map write_map i s)

-- Of the second loop, the write map afterwards
abbrev pub cleaned : ℕ → (ℕ → ℕ) → ℕ → ℕ
cleaned n write_map i = if ltb i n then 0 else write_map i

unfoldable pub is_interesting : DataflowFeedback → Bool × DataflowFeedback
unfolding rounds
is_interesting f =
    let (interesting, global) =
      rounds f.read_map f.write_map map_size (false, f.global_write_map) in
    (interesting, record f { global_write_map = global; write_map = cleaned map_size f.write_map })

-- The slot was read and is written in this execution.
abbrev pub hits : DataflowFeedback → ℕ → Bool
hits f i = f.read_map i && not (f.write_map i == 0)

-- Some index below the bound passes the test.
unfoldable pub some_below : ℕ → (ℕ → Bool) → Bool
some_below zero p = false
some_below (suc n) p = p n || some_below n p

-- The bucket of a value: how many of the bounds 8, 32 and 128 it has reached.
abbrev pub bucket : ℕ → ℕ
bucket v = (if ltb v 8 then 0 else 1) + ((if ltb v 32 then 0 else 1) + (if ltb v 128 then 0 else 1))

category-bucket : (v : ℕ) → category v ≡ bucket v
unfolding category
category-bucket v = ground arith

some_below-eq : (n : ℕ) (p q : ℕ → Bool) → ((i : ℕ) → p i ≡ q i) → some_below n p ≡ some_below n q
unfolding some_below
some_below-eq zero p q h = refl
some_below-eq (suc n) p q h = ground (arith, h n, some_below-eq n p q h)

round-global :
    (r : ℕ → Bool) (w : ℕ → ℕ) (n : ℕ) (s : Bool × (ℕ → ℕ → Bool)) (i c : ℕ)
    → (round r w n s).1 i c
      ≡ (s.1 i c || (n == i && ((r n && not (w n == 0)) && category (w n) == c)))
unfolding round
round-global r w n (seen, global) i c = ground arith

module _ (f : DataflowFeedback) where
  rounds-global :
      (n i c : ℕ) (seen : Bool)
      → (rounds f.read_map f.write_map n (seen, f.global_write_map)).1 i c
        ≡ (f.global_write_map i c || (ltb i n && (hits f i && category (f.write_map i) == c)))
  unfolding rounds
  rounds-global zero i c seen = ground arith
  rounds-global (suc n) i c seen = ground (
    arith,
    rounds-global n i c seen,
    round-global f.read_map f.write_map n
        (rounds f.read_map f.write_map n (seen, f.global_write_map)) i c,
  )

  rounds-interesting :
      (n : ℕ)
      → (rounds f.read_map f.write_map n (false, f.global_write_map)).0
        ≡ some_below n (λ i. hits f i && not (f.global_write_map i (category (f.write_map i))))
  unfolding rounds round some_below
  rounds-interesting zero = refl
  rounds-interesting (suc n) =
      ground (arith, rounds-interesting n, rounds-global n n (category (f.write_map n)) false)

  pub is_interesting-bucket :
      ((is_interesting f).0
        ≡ some_below map_size
            (λ i. hits f i && not (f.global_write_map i (bucket (f.write_map i)))))
      × ((i c : ℕ)
          → (is_interesting f).1.global_write_map i c ≡ (
              f.global_write_map i c
              || (ltb i map_size && (hits f i && bucket (f.write_map i) == c))))
      × ((i : ℕ) → i < map_size → (is_interesting f).1.write_map i ≡ 0)
  unfolding is_interesting
  is_interesting-bucket = (
    rounds-interesting map_size
        ∙ some_below-eq map_size _ _ (λ i. ground (arith, category-bucket (f.write_map i))),
    λ i c. rounds-global map_size i c false ∙ ground (arith, category-bucket (f.write_map i)),
    λ i lt. ground arith,
  )

some_below-false : (n : ℕ) (p : ℕ → Bool) → ((i : ℕ) → i < n → p i ≡ false) → some_below n p ≡ false
unfolding some_below
some_below-false zero p h = refl
some_below-false (suc n) p h =
    ground (arith, h n (omega arith), some_below-false n p (λ i lt. h i (omega arith)))

-- After an execution, another one with the same maps is not interesting.
pub is_interesting_again :
    (f : DataflowFeedback)
    → (is_interesting (record f { global_write_map = (is_interesting f).1.global_write_map })).0
      ≡ false
is_interesting_again f =
    let g = (is_interesting f).1.global_write_map in
    let (e, _, _) = is_interesting-bucket (record f { global_write_map = g }) in
    let (_, at, _) = is_interesting-bucket f in
    e
    ∙ some_below-false map_size (λ i. hits f i && not (g i (bucket (f.write_map i))))
        (λ i lt. ground (arith, at i (bucket (f.write_map i))))
