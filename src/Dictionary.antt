-- ===== src/Dictionary.antt =====
-- src/lib/core/dictionary.c: a map from blocks of bytes to objects, a tree of tables by the bits of
-- the key's hash: 8 bits for the first two tables, 4 for the others, and chains below them.
-- A table's cells are a function of their index. The hash comes from the XXH3 functions through
-- src/lib/core/hash.c, and is a parameter, as is the address PSC_DICT_NODELETE. An operation runs
-- under the lock of its bucket, so it is one step; what `atomic_fetch_add` counts is in the result. A depth is given as the levels that are left
-- above MAXNEST, `left = max_nest - depth`, so that `depth >= MAXNEST` is `left` 0.
pub mod Valid
pub mod Bits
pub mod Chain
pub mod Cells
pub mod SetGet
pub mod SetValid
pub mod Remove
pub mod Refine
pub mod Runs
use poser.Prelude.{
  ℕ, zero, suc, ◌+◌, ◌-◌, ◌*◌, ◌/◌, ◌%◌, ◌^◌, List, [], ◌∷◌, ◌++◌, Option, none, some, Bool, true,
  false, ltb, ◌==◌, if◌then◌else◌,
}
use poser.Prelude.Chars.{str_eq}
use poser.Prelude.Owned.{Deleter, Call}
use poser.Prelude.Sums.{sum_to}

-- MAXNEST
abbrev pub max_nest : ℕ
max_nest = 14

-- HT8_SIZE and HT4_SIZE
abbrev pub ht8_size : ℕ
ht8_size = 256

abbrev pub ht4_size : ℕ
ht4_size = 16

-- the levels above MAXNEST that are left at the next depth
abbrev pub deeper : ℕ → ℕ
deeper zero = zero
deeper (suc left) = left

-- Entry, EntryD, EntryL and EntryDL, without `next`; the object may be the null pointer
pub record Entry (A : Type 0) : Type 0 where
  pub key : List ℕ
  pub obj : Option A
  pub deleter : Option Deleter

-- HashBucket with its BucketType; an item has behind it the entries that its `next` leads to
pub data Bucket (A : Type 0) : Type 0 where
  empty : Bucket A
  item : Entry A → List (Entry A) → Bucket A
  ht8 : (ℕ → Bucket A) → Bucket A
  ht4 : (ℕ → Bucket A) → Bucket A

-- PSC_Dictionary, without the hasher and the locks
pub record Dict (A : Type 0) : Type 0 where
  pub deleter : Option Deleter
  pub count : ℕ
  pub buckets : ℕ → Bucket A

-- What an operation on a bucket gives: calls of deleters, the new bucket, and the new count.
abbrev pub Outcome : Type 0 → Type 0
Outcome A = List (Call (Option A)) × Bucket A × ℕ

module _ {A : Type 0} where
  -- an assignment to a cell
  abbrev pub put_cell : (ℕ → Bucket A) → ℕ → Bucket A → ℕ → Bucket A
  put_cell bs i b j = if j == i then b else bs j

  -- a table with one item in the cell `i`
  abbrev pub one_cell : ℕ → Entry A → ℕ → Bucket A
  one_cell i e = put_cell (λ _. empty) i (item e [])

  -- a loop over the first `n` cells that calls deleters
  unfoldable pub concat_to : ℕ → (ℕ → List (Call (Option A))) → List (Call (Option A))
  concat_to zero f = []
  concat_to (suc n) f = concat_to n f ++ f n

  -- `bucket->content` after a walk along a chain: its first entry, if there is one left
  abbrev pub chain_bucket : List (Entry A) → Bucket A
  chain_bucket [] = empty
  chain_bucket (e ∷ es) = item e es

  -- the walk along a chain in `get`
  unfoldable pub get_chain : List ℕ → List (Entry A) → Option A
  get_chain key [] = none
  get_chain key (e ∷ es) = let later = get_chain key es in if str_eq e.key key then e.obj else later

  -- `get`, from a bucket on
  unfoldable pub get_in : ℕ → ℕ → List ℕ → Bucket A → Option A
  get_in left h key empty = none
  get_in zero h key (item e es) = get_chain key (e ∷ es)
  get_in (suc left) h key (item e es) = if str_eq e.key key then e.obj else none
  get_in left h key (ht8 bs) = get_in (deeper left) (h / 2 ^ 8) key (bs (h % 2 ^ 8))
  get_in left h key (ht4 bs) = get_in (deeper left) (h / 2 ^ 4) key (bs (h % 2 ^ 4))

  -- the table that takes the place of an item in `set`
  unfoldable pub split : (List ℕ → ℕ) → ℕ → Entry A → Bucket A
  split hash left e =
      let depth = max_nest - left in
      if ltb 1 depth
      then ht4 (one_cell (hash e.key / 2 ^ (16 + (depth - 2) * 4) % 2 ^ 4) e)
      else ht8 (one_cell (hash e.key / 2 ^ 8 % 2 ^ 8) e)

  -- the descent into the cell of a table in `set`, `set_below` being the call for that cell
  unfoldable pub descend : (ℕ → Bucket A → Outcome A) → ℕ → Bucket A → ℕ → Outcome A
  descend set_below h (ht8 bs) count =
      let (calls, b, n) = set_below (h / 2 ^ 8) (bs (h % 2 ^ 8)) in
      (calls, ht8 (put_cell bs (h % 2 ^ 8) b), n)
  descend set_below h (ht4 bs) count =
      let (calls, b, n) = set_below (h / 2 ^ 4) (bs (h % 2 ^ 4)) in
      (calls, ht4 (put_cell bs (h % 2 ^ 4) b), n)
  descend set_below h b count = ([], b, count)

module _ {A : Type 0} (nodelete : Deleter) (self_deleter : Option Deleter) where
  -- the deleter of the dictionary on an entry's object, or the entry's own if it has none
  unfoldable pub dispose : Entry A → List (Call (Option A))
  dispose e = elim self_deleter [
    | none ↦ elim e.deleter [ none ↦ [] | some d ↦ (d, e.obj) ∷ [] ]
    | some d ↦ if d == nodelete then [] else (d, e.obj) ∷ []
  ]

  -- `createEntry`, without its count; only without a common deleter is there one in the entry
  unfoldable pub create_entry : List ℕ → Option A → Option Deleter → Entry A
  create_entry key obj deleter = record {
    key = key;
    obj = obj;
    deleter = elim self_deleter [ none ↦ deleter | some _ ↦ none ];
  }

  -- the object of an entry replaced
  unfoldable pub replace : Entry A → A → Option Deleter → Entry A
  replace e obj deleter = record e {
    obj = some obj;
    deleter = elim self_deleter [ none ↦ deleter | some _ ↦ e.deleter ];
  }

  -- `set` in an empty bucket: a new item, but for the null object
  unfoldable pub set_empty : List ℕ → Option Deleter → Option A → ℕ → Outcome A
  set_empty key deleter none count = ([], empty, count)
  set_empty key deleter (some o) count =
      ([], item (create_entry key (some o) deleter) [], count + 1)

  -- `set` in an item with the same key: its object replaced, or the item removed
  unfoldable pub set_same : Option Deleter → Option A → Entry A → List (Entry A) → ℕ → Outcome A
  set_same deleter none e es count = (dispose e, empty, count - 1)
  set_same deleter (some o) e es count = (dispose e, item (replace e o deleter) es, count)

  module _ (key : List ℕ) (obj : Option A) (deleter : Option Deleter) where
    -- the walk along a chain in `set`, which ends in a new entry if the key is not there, also for
    -- the null object
    unfoldable pub set_chain : List (Entry A) → ℕ → List (Call (Option A)) × List (Entry A) × ℕ
    set_chain [] count = ([], create_entry key obj deleter ∷ [], count + 1)
    set_chain (e ∷ es) count =
        let (calls, rest, n) = set_chain es count in
        if str_eq e.key key
        then (
          dispose e,
          elim obj [ none ↦ es | some o ↦ replace e o deleter ∷ es ],
          elim obj [ none ↦ count - 1 | some _ ↦ count ],
        )
        else (calls, e ∷ rest, n)

    module _ (hash : List ℕ → ℕ) where
      -- `set`, from a bucket on. Its call for the bucket that it has just split goes on in the new
      -- table at once. A table stands above MAXNEST only, so `left` lasts.
      unfoldable pub set_in : ℕ → ℕ → Bucket A → ℕ → Outcome A
      set_in left h empty count = set_empty key deleter obj count
      set_in zero h (item e es) count =
          let (calls, chain, n) = set_chain (e ∷ es) count in (calls, chain_bucket chain, n)
      set_in (suc left) h (item e es) count = elim (str_eq e.key key) [
        | true ↦ set_same deleter obj e es count
        | false ↦ descend (λ h' b. set_in left h' b count) h (split hash (suc left) e) count
      ]
      set_in zero h (ht8 bs) count = ([], ht8 bs, count)
      set_in zero h (ht4 bs) count = ([], ht4 bs, count)
      set_in (suc left) h (ht8 bs) count = descend (λ h' b. set_in left h' b count) h (ht8 bs) count
      set_in (suc left) h (ht4 bs) count = descend (λ h' b. set_in left h' b count) h (ht4 bs) count

  module _ (matcher : List ℕ → Option A → Bool) where
    -- the walk along a chain in `removeAll`, with the number of entries that it unlinks
    unfoldable pub remove_chain : List (Entry A) → List (Call (Option A)) × List (Entry A) × ℕ
    remove_chain [] = ([], [], 0)
    remove_chain (e ∷ es) =
        let (calls, rest, n) = remove_chain es in
        if matcher e.key e.obj then (dispose e ++ calls, rest, n + 1) else (calls, e ∷ rest, n)

    -- `removeAll`, from a bucket on
    unfoldable pub remove_in : ℕ → Bucket A → Outcome A
    remove_in left empty = ([], empty, 0)
    remove_in zero (item e es) =
        let (calls, chain, n) = remove_chain (e ∷ es) in (calls, chain_bucket chain, n)
    remove_in (suc left) (item e es) =
        if matcher e.key e.obj then (dispose e, empty, 1) else ([], item e es, 0)
    remove_in left (ht8 bs) = (
      concat_to ht8_size (λ i. (remove_in (deeper left) (bs i)).0),
      ht8 (λ i. (remove_in (deeper left) (bs i)).1),
      sum_to ht8_size (λ i. (remove_in (deeper left) (bs i)).2),
    )
    remove_in left (ht4 bs) = (
      concat_to ht4_size (λ i. (remove_in (deeper left) (bs i)).0),
      ht4 (λ i. (remove_in (deeper left) (bs i)).1),
      sum_to ht4_size (λ i. (remove_in (deeper left) (bs i)).2),
    )

  -- the walk along a chain in `destroy`
  unfoldable pub destroy_chain : List (Entry A) → List (Call (Option A))
  destroy_chain [] = []
  destroy_chain (e ∷ es) = dispose e ++ destroy_chain es

  -- the calls of `destroy`, from a bucket on
  unfoldable pub destroy_in : ℕ → Bucket A → List (Call (Option A))
  destroy_in left empty = []
  destroy_in zero (item e es) = destroy_chain (e ∷ es)
  destroy_in (suc left) (item e es) = dispose e
  destroy_in left (ht8 bs) = concat_to ht8_size (λ i. destroy_in (deeper left) (bs i))
  destroy_in left (ht4 bs) = concat_to ht4_size (λ i. destroy_in (deeper left) (bs i))

-- the levels below the first table
abbrev pub top : ℕ
top = max_nest - 1

module _ {A : Type 0} where
  -- `PSC_Dictionary_create`
  unfoldable pub create : Option Deleter → Dict A
  create deleter = record { deleter = deleter; count = 0; buckets = λ _. empty }

  -- `PSC_Dictionary_count`
  unfoldable pub count : Dict A → ℕ
  count d = d.count

  module _ (hash : List ℕ → ℕ) where
    -- `PSC_Dictionary_get`
    unfoldable pub get : Dict A → List ℕ → Option A
    get d key = get_in top (hash key / 2 ^ 8) key (d.buckets (hash key % 2 ^ 8))

    module _ (nodelete : Deleter) where
      -- `PSC_Dictionary_set`
      unfoldable pub set_key :
          Dict A → List ℕ → Option A → Option Deleter → List (Call (Option A)) × Dict A
      set_key d key obj deleter =
          let own : Option Deleter = elim deleter [
            | none ↦ none
            | some f ↦ if f == nodelete then none else some f
          ] in
          let i = hash key % 2 ^ 8 in
          let (calls, b, n) =
            set_in nodelete d.deleter key obj own hash top (hash key / 2 ^ 8) (d.buckets i)
              d.count in
          (calls, record d { buckets = put_cell d.buckets i b; count = n })

  module _ (nodelete : Deleter) where
    -- `PSC_Dictionary_removeAll`; the matcher has its `arg` inside
    unfoldable pub remove_all :
        Dict A → (List ℕ → Option A → Bool) → List (Call (Option A)) × Dict A × ℕ
    remove_all d matcher = elim (d.count == 0) [
      | true ↦ ([], d, 0)
      | false ↦
          let swept : ℕ → Outcome A = λ i. remove_in nodelete d.deleter matcher top (d.buckets i) in
          let removed = sum_to ht8_size (λ i. (swept i).2) in
          (
            concat_to ht8_size (λ i. (swept i).0),
            record d { buckets = λ i. (swept i).1; count = d.count - removed },
            removed,
          )
    ]

    -- the calls of `PSC_Dictionary_destroy`
    unfoldable pub destroy : Dict A → List (Call (Option A))
    destroy d = concat_to ht8_size (λ i. destroy_in nodelete d.deleter top (d.buckets i))
