-- ===== src/Host/Storage.antt =====
-- `sload`, `sstore`, `tload` and `tstore` of `FuzzHost` in src/evm/host.rs. A read of an unknown
-- slot writes `next_slot` to it.
use ityfuzz.Prelude.{
  ℕ, ◌≡◌, ◌&&◌, refl, none, some, List, [], ◌∷◌, ◌==◌, if◌then◌else◌, arith, get, insert,
  get-insert, nat_eq, pair_eq, pair_beq_iff, or_default, ==_iff,
}

-- The slots of each address
abbrev pub Storage : Type 0
Storage = List (ℕ × List (ℕ × ℕ))

abbrev pub Transient : Type 0
Transient = List ((ℕ × ℕ) × ℕ)

unfoldable pub sload : ℕ → ℕ → ℕ → Storage → ℕ × Storage
sload next_slot address index state = elim (get address state) [
  | some account ↦ elim (get index account) [
    | some slot ↦ (slot, state)
    | none ↦ (next_slot, insert address (insert index next_slot account) state)
  ]
  | none ↦ (next_slot, insert address ((index, next_slot) ∷ []) state)
]

unfoldable pub sstore : ℕ → ℕ → ℕ → Storage → Storage
sstore address index value state = elim (get address state) [
  | some account ↦ insert address (insert index value account) state
  | none ↦ insert address ((index, value) ∷ []) state
]

unfoldable pub tload : ℕ → ℕ → ℕ → Transient → ℕ × Transient
tload next_slot address index transient_storage = elim (get (address, index) transient_storage) [
  | some slot ↦ (slot, transient_storage)
  | none ↦ (next_slot, insert (address, index) next_slot transient_storage)
]

unfoldable pub tstore : ℕ → ℕ → ℕ → Transient → Transient
tstore address index value transient_storage = insert (address, index) value transient_storage

-- The storage as a function of the address and the index
abbrev pub value_at : ℕ → Storage → ℕ → ℕ → ℕ
value_at next_slot state address index =
    or_default next_slot (get index (or_default [] (get address state)))

abbrev pub transient_at : ℕ → Transient → ℕ → ℕ → ℕ
transient_at next_slot t address index = or_default next_slot (get (address, index) t)

get_nil : (i : ℕ) → get i (let m : List (ℕ × ℕ) = [] in m) ≡ none
unfolding get
get_nil i = refl

insert_nil : (i v : ℕ) → insert i v [] ≡ (i, v) ∷ []
unfolding insert
insert_nil i v = refl

account_at-insert :
    (a b : ℕ) (account : List (ℕ × ℕ)) (state : Storage)
    → or_default [] (get b (insert a account state))
      ≡ (if a == b then account else or_default [] (get b state))
account_at-insert a b account state = ground (arith, get-insert a b account state)

value_at-insert :
    (next a b i j v : ℕ) (account : List (ℕ × ℕ)) (state : Storage)
    → account ≡ or_default [] (get a state)
    → value_at next (insert a (insert i v account) state) b j
      ≡ (if a == b && i == j then v else value_at next state b j)
value_at-insert next a b i j v account state h =
    ground (
      arith,
      account_at-insert a b (insert i v account) state,
      get-insert i j v account,
      ==_iff a b,
    )

-- A load gives the value of the slot and leaves the values of all slots.
pub sload_lem :
    (next a i : ℕ) (state : Storage)
    → ((sload next a i state).0 ≡ value_at next state a i)
      × ((b j : ℕ) → value_at next (sload next a i state).1 b j ≡ value_at next state b j)
unfolding sload
sload_lem next a i state = (
  ground (arith, get_nil i),
  λ b j. ground (
    arith,
    get_nil i,
    insert_nil i next,
    value_at-insert next a b i j next (or_default [] (get a state)) state,
    ==_iff a b,
    ==_iff i j,
  ),
)

-- A store sets the value of its slot and leaves those of the others.
pub sstore_lem :
    (next a i v : ℕ) (state : Storage) (b j : ℕ)
    → value_at next (sstore a i v state) b j
      ≡ (if a == b && i == j then v else value_at next state b j)
unfolding sstore
sstore_lem next a i v state b j =
    ground
      (arith, insert_nil i v, value_at-insert next a b i j v (or_default [] (get a state)) state)

pub tload_lem :
    (next a i : ℕ) (t : Transient)
    → ((tload next a i t).0 ≡ transient_at next t a i)
      × ((b j : ℕ) → transient_at next (tload next a i t).1 b j ≡ transient_at next t b j)
unfolding tload
tload_lem next a i t = (
  ground arith,
  λ b j. ground (arith, get-insert (a, i) (b, j) next t, pair_beq_iff (a, i) (b, j)),
)

pub tstore_lem :
    (next a i v : ℕ) (t : Transient) (b j : ℕ)
    → transient_at next (tstore a i v t) b j
      ≡ (if a == b && i == j then v else transient_at next t b j)
unfolding tstore
tstore_lem next a i v t b j = ground (arith, get-insert (a, i) (b, j) v t)
