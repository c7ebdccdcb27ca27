-- ===== src/HashTable.antt =====
-- src/lib/core/hashtable.c: a fixed number of buckets, each a chain of entries with unique keys.
-- A chain of entries linked by `next`, each owned by the one before it, is a list. Keys are C
-- strings without their terminator. The hash of a string comes from the XXH3 functions through
-- src/lib/core/hash.c, and is a parameter.
pub mod Chain
pub mod Valid
pub mod Refine
pub mod Sweep
pub mod Runs
use mathlib.Core.Option
use poser.Prelude.{
  ℕ, zero, suc, ◌+◌, ◌-◌, ◌^◌, bit_and, List, [], ◌∷◌, ◌++◌, Option, none, some, Bool, true, false,
  ltb, leb, if◌then◌else◌, get_elem?, get_or, set, replicate, map,
}
use poser.Prelude.Int.{ℤ, to_int}
use poser.Prelude.Chars.{str_eq}
use poser.Prelude.Owned.{Owned, Deleter, Call, delete}

-- PSC_HashTableEntry, without `next`: the key, and the object with its deleter
pub record Entry {ℓ} (A : Type ℓ) : Type ℓ where
  pub key : List ℕ
  pub owned : Owned A

abbrev pub Chain {ℓ} : Type ℓ → Type ℓ
Chain A = List (Entry A)

-- PSC_HashTable, without the hasher
pub record HashTable {ℓ} (A : Type ℓ) : Type ℓ where
  pub count : ℕ
  pub mask : ℕ
  pub bits : ℕ
  pub bucket : List (Chain A)

-- PSC_HashTableIterator
pub record Iterator {ℓ} (A : Type ℓ) : Type ℓ where
  pub count : ℕ
  pub pos : ℕ
  pub entries : List (List ℕ × A)

-- the test at the start of `PSC_HashTable_create`, on a `uint8_t`
abbrev pub clamp_bits : ℕ → ℕ
clamp_bits bits = if ltb bits 2 then 2 else if ltb 16 bits then 16 else bits

module _ {ℓ} {A : Type ℓ} where
  -- `PSC_HashTable_create`
  unfoldable pub create : ℕ → HashTable A
  create bits =
      let htsize = 2 ^ clamp_bits bits in
      record { count = 0; mask = htsize - 1; bits = clamp_bits bits; bucket = replicate htsize [] }

  -- the walk along a chain in `PSC_HashTable_get`
  unfoldable pub find : List ℕ → Chain A → Option (Owned A)
  find key [] = none
  find key (e ∷ es) = let later = find key es in if str_eq e.key key then some e.owned else later

  -- the walk in `PSC_HashTable_set`: the entry with the key gets the new object, after a call of
  -- its deleter, or a new entry is linked behind the last. The flag says that one was added.
  unfoldable pub set_chain : List ℕ → Owned A → Chain A → List (Call A) × Chain A × Bool
  set_chain key o [] = ([], record { key = key; owned = o } ∷ [], true)
  set_chain key o (e ∷ es) =
      let (calls, rest, added) = set_chain key o es in
      if str_eq e.key key
      then (delete e.owned, record e { owned = o } ∷ es, false)
      else (calls, e ∷ rest, added)

  -- the walk in `PSC_HashTable_delete`: the flag says that an entry was unlinked
  unfoldable pub delete_chain : List ℕ → Chain A → List (Call A) × Chain A × Bool
  delete_chain key [] = ([], [], false)
  delete_chain key (e ∷ es) =
      let (calls, rest, removed) = delete_chain key es in
      if str_eq e.key key then (delete e.owned, es, true) else (calls, e ∷ rest, removed)

  -- the inner loop of `PSC_HashTable_deleteAll`, with the number of entries that it unlinked
  unfoldable pub delete_all_chain : (List ℕ → A → Bool) → Chain A → List (Call A) × Chain A × ℕ
  delete_all_chain matcher [] = ([], [], 0)
  delete_all_chain matcher (e ∷ es) =
      let (calls, rest, n) = delete_all_chain matcher es in
      if matcher e.key e.owned.obj
      then (delete e.owned ++ calls, rest, n + 1)
      else (calls, e ∷ rest, n)

  -- its outer loop over the buckets
  unfoldable pub delete_all_loop :
      (List ℕ → A → Bool) → List (Chain A) → List (Call A) × List (Chain A) × ℕ
  delete_all_loop matcher [] = ([], [], 0)
  delete_all_loop matcher (c ∷ cs) =
      let (calls, c', n) = delete_all_chain matcher c in
      let (more, cs', k) = delete_all_loop matcher cs in (calls ++ more, c' ∷ cs', n + k)

  -- `PSC_HashTable_deleteAll`, with its result, an `int`
  unfoldable pub delete_all : HashTable A → (List ℕ → A → Bool) → List (Call A) × HashTable A × ℤ
  delete_all t matcher =
      let (calls, bucket, deleted) = delete_all_loop matcher t.bucket in
      (calls, record t { bucket = bucket; count = t.count - deleted }, to_int deleted)

  -- `PSC_HashTable_count`
  unfoldable pub count : HashTable A → ℕ
  count t = t.count

  -- the copy that `PSC_HashTable_iterator` makes, bucket by bucket
  unfoldable pub entries_of : List (Chain A) → List (List ℕ × A)
  entries_of [] = []
  entries_of (c ∷ cs) = map (λ e. (e.key, e.owned.obj)) c ++ entries_of cs

  -- `PSC_HashTable_iterator`
  unfoldable pub iterator : HashTable A → Iterator A
  iterator t = record { count = t.count; pos = t.count; entries = entries_of t.bucket }

  -- the calls of `PSC_HashTable_destroy`
  unfoldable pub destroy_chain : Chain A → List (Call A)
  destroy_chain [] = []
  destroy_chain (e ∷ es) = delete e.owned ++ destroy_chain es

  unfoldable pub destroy_loop : List (Chain A) → List (Call A)
  destroy_loop [] = []
  destroy_loop (c ∷ cs) = destroy_chain c ++ destroy_loop cs

  unfoldable pub destroy : HashTable A → List (Call A)
  destroy t = destroy_loop t.bucket

  module _ (hash : List ℕ → ℕ) where
    -- `hashstr`
    unfoldable pub hashstr : HashTable A → List ℕ → ℕ
    hashstr t key = bit_and (hash key) t.mask

    -- `PSC_HashTable_set`
    unfoldable pub set_key : HashTable A → List ℕ → A → Option Deleter → List (Call A) × HashTable A
    set_key t key obj deleter =
        let h = hashstr t key in
        let (calls, c, added) =
          set_chain key (record { obj = obj; deleter = deleter }) (get_or t.bucket h []) in
        (
          calls,
          record t { bucket = set t.bucket h c; count = if added then t.count + 1 else t.count },
        )

    -- `PSC_HashTable_delete`, with its result as a truth value
    unfoldable pub delete_key : HashTable A → List ℕ → List (Call A) × HashTable A × Bool
    delete_key t key =
        let h = hashstr t key in
        let (calls, c, removed) = delete_chain key (get_or t.bucket h []) in
        (
          calls,
          record t { bucket = set t.bucket h c; count = if removed then t.count - 1 else t.count },
          removed,
        )

    -- `PSC_HashTable_get`
    unfoldable pub get : HashTable A → List ℕ → Option A
    get t key = Option.map (λ o. o.obj) (find key (get_or t.bucket (hashstr t key) []))

  -- `PSC_HashTableIterator_moveNext`
  unfoldable pub move_next : Iterator A → Bool × Iterator A
  move_next it =
      let pos = if leb it.count it.pos then 0 else it.pos + 1 in
      (ltb pos it.count, record it { pos = pos })

  -- `PSC_HashTableIterator_key` and `PSC_HashTableIterator_current`
  unfoldable pub key_at : Iterator A → Option (List ℕ)
  key_at it =
      if leb it.count it.pos then none else Option.map (λ e. e.0) (get_elem? it.entries it.pos)

  unfoldable pub current : Iterator A → Option A
  current it =
      if leb it.count it.pos then none else Option.map (λ e. e.1) (get_elem? it.entries it.pos)
