-- ===== src/RateLimit/Store.antt =====
-- src/lib/core/dictionary.c in the place that src/lib/core/ratelimit.c has for it.
use poser.Prelude.{ℕ, ◌≡◌, refl, ◌∙◌, List, Option, none, some, Bool, false}
use poser.Prelude.Chars.{str_eq}
use poser.Prelude.Owned.{Deleter}
use poser.Dictionary as Trie
use poser.Dictionary.{Dict}
use poser.Dictionary.Remove.{sifted}
use poser.Dictionary.Refine.{IsValid, get-set_key, get-remove_all}
use poser.RateLimit.{Entry, Dictionary}
use poser.RateLimit.Keys.{unless, Laws}

-- the dictionaries that the operations make
abbrev pub Store : Type 0
Store = (d : Dict (List Entry)) × IsValid d

-- a matcher that looks at the entries only
abbrev pub by_entries : (List Entry → Bool) → List ℕ → Option (List Entry) → Bool
by_entries p key none = false
by_entries p key (some es) = p es

sifted-unless :
    (p : List Entry → Bool) (q : List ℕ) (o : Option (List Entry))
    → sifted (by_entries p) q o ≡ unless p o
sifted-unless p q none = refl
sifted-unless p q (some es) = refl

module _ (nodelete : Deleter) (hash : List ℕ → ℕ) where
  -- the operations of dictionary.c as `PSC_RateLimit_check` uses them
  unfoldable pub store : Dictionary Store (List ℕ)
  store = record {
    get = λ d key. Trie.get hash d.0 key;
    set = λ d key es. (
      (Trie.set_key hash nodelete d.0 key (some es) none).1,
      (get-set_key nodelete hash d.1 key (some es) none).0,
    );
    remove_all = λ d p. (
      (Trie.remove_all nodelete d.0 (by_entries p)).1,
      (get-remove_all nodelete hash d.1 (by_entries p)).0,
    );
  }

  -- The dictionary of dictionary.c does what the rate limiter relies on, for any hash function and
  -- any address of PSC_DICT_NODELETE: a key that is set gets its entries and no other key is
  -- touched, and a removal by entries leaves what is not selected.
  store-Laws : Laws store str_eq
  unfolding store
  store-Laws = record {
    get-set = λ d key es q. (get-set_key nodelete hash d.1 key (some es) none).1 q;
    get-remove_all = λ d p q.
        (get-remove_all nodelete hash d.1 (by_entries p)).1 q
        ∙ sifted-unless p q (Trie.get hash d.0 q);
  }
