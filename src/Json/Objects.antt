-- ===== src/Json/Objects.antt =====
-- The stored form of a JSON object, with its keys and its dictionary, against the members of the tree.
use poser.Prelude.{
  Bool, ℕ, suc, ◌+◌, ◌≡◌, refl, sym, ap, ◌∙◌, inl, inr, List, [], ◌∷◌, ◌++◌, Option, none, some,
  true, false, if◌then◌else◌, Bool-cases, arith,
}
use poser.Prelude.Chars.{str_eq, str_eq_refl, str_eq→eq}
use poser.Json.{
  Json, Members, end, member, with_length, get, set, count, json_length, item_at, property,
}
use poser.Json.Stored.{
  Values, one_more, Laws, JsonObject, key_list, dictionary, add_key, store_property, find_property,
  object_length, object_item, create_object,
}

again :
    {A : Type 0} (a b c : A) (same : Bool)
    → (if same then a else b) ≡ (if same then a else if same then c else b)
again a b c true = refl
again a b c false = refl

differ :
    (key name q : List ℕ) → str_eq key name ≡ false → str_eq key q ≡ true → str_eq name q ≡ false
differ key name q h k = elim (Bool-cases (str_eq name q)) [
  | inr other ↦ other
  | inl same ↦
      let bad : true ≡ false =
        sym (str_eq_refl q)
        ∙ ap (λ t. str_eq t q) (sym (str_eq→eq key q k))
        ∙ ap (str_eq key) (sym (str_eq→eq name q same))
        ∙ h in
      absurd (cc)
]

-- how often a key is in a list
abbrev pub times : List ℕ → List (List ℕ) → ℕ
times q [] = 0
times q (key ∷ keys) = (if str_eq key q then 1 else 0) + times q keys

times-append :
    (q : List ℕ) (keys : List (List ℕ)) (key : List ℕ)
    → times q (keys ++ key ∷ []) ≡ times q keys + (if str_eq key q then 1 else 0)
times-append q [] key = omega arith
times-append q (k ∷ keys) key = omega (arith, times-append q keys key)

module _ {F : Type 0} where
  abbrev pub keys_of : Members F → List (List ℕ)
  keys_of end = []
  keys_of (member key _ ms) = key ∷ keys_of ms

  -- 1 for a value, 0 for none
  abbrev pub present : Option (Json F) → ℕ
  present none = 0
  present (some value) = 1

  pub get-set :
      (ms : Members F) (name q : List ℕ) (value : Json F)
      → get (set ms name value) q ≡ (if str_eq name q then some value else get ms q)
  unfolding get set
  get-set end name q value = refl
  get-set (member key old ms) name q value = elim (Bool-cases (str_eq key name)) [
    | inl same ↦
        rw (same, sym (str_eq→eq key name same))
          (again (some value) (get ms q) (some old) (str_eq key q))
    | inr other ↦ elim (Bool-cases (str_eq key q)) [
      | inl here ↦ rw (get, other, get, differ key name q other here, here) refl
      | inr there ↦ rw (other, get, there) (get-set ms name q value)
    ]
  ]

  -- the keys after a key is set, for the value that it had
  abbrev keys_with : Option (Json F) → List (List ℕ) → List ℕ → List (List ℕ)
  keys_with none keys key = keys ++ key ∷ []
  keys_with (some old) keys key = keys

  keys_with_cons :
      (v : Option (Json F)) (k : List ℕ) (keys : List (List ℕ)) (key : List ℕ)
      → (k ∷ keys_with v keys key) ≡ keys_with v (k ∷ keys) key
  keys_with_cons none k keys key = refl
  keys_with_cons (some old) k keys key = refl

  suc-one_more : (v : Option (Json F)) (n : ℕ) → suc (one_more v n) ≡ one_more v (suc n)
  suc-one_more none n = refl
  suc-one_more (some old) n = refl

  pub keys_of-set :
      (ms : Members F) (name : List ℕ) (value : Json F)
      → (keys_of (set ms name value) ≡ keys_with (get ms name) (keys_of ms) name)
        × (count (set ms name value) ≡ one_more (get ms name) (count ms))
  unfolding get set
  keys_of-set end name value = (refl, refl)
  keys_of-set (member key old ms) name value = elim (Bool-cases (str_eq key name)) [
    | inl same ↦ rw same (refl, refl)
    | inr other ↦
        let (keys, n) = keys_of-set ms name value in
        rw other (
          ap (◌∷◌ key) keys ∙ keys_with_cons (get ms name) key (keys_of ms) name,
          ap suc n ∙ suc-one_more (get ms name) (count ms),
        )
  ]

  module _ {D : Type 0} (dict : Values F D) (laws : Laws dict) where
    -- The keys are those of the members, in their order and each once, and the dictionary has the
    -- members' values.
    pub record Represents (obj : JsonObject D) (ms : Members F) : Type 0 where
      pub keys : key_list obj.keys ≡ keys_of ms
      pub values : (q : List ℕ) → dict.get (dictionary dict obj.values) q ≡ get ms q
      pub counted : dict.count (dictionary dict obj.values) ≡ count ms
      pub once : (q : List ℕ) → times q (key_list obj.keys) ≡ present (get ms q)

    pub create-Represents : Represents create_object end
    unfolding get
    create-Represents = record {
      keys = refl;
      values = laws.get-create;
      counted = laws.count-create;
      once = λ q. refl;
    }

    key_list-add_key :
        (v : Option (Json F)) (keys : Option (List (List ℕ))) (key : List ℕ)
        → key_list (add_key dict v keys key) ≡ keys_with v (key_list keys) key
    unfolding add_key
    key_list-add_key none keys key = refl
    key_list-add_key (some old) keys key = refl

    times-keys_with :
        (v : Option (Json F)) (keys : List (List ℕ)) (key q : List ℕ) (w : Option (Json F))
        → (str_eq key q ≡ true → w ≡ v)
        → times q keys ≡ present w
        → (value : Json F)
        → times q (keys_with v keys key) ≡ present (if str_eq key q then some value else w)
    times-keys_with none keys key q w same b value = elim (Bool-cases (str_eq key q)) [
      | inl here ↦
          let absent : times q keys ≡ 0 = b ∙ ap present (same here) in
          let one : times q (keys ++ key ∷ []) ≡ times q keys + 1 =
            rw here at (times-append q keys key) in
          rw here (omega (arith, absent, one))
      | inr away ↦
          let one : times q (keys ++ key ∷ []) ≡ times q keys + 0 =
            rw away at (times-append q keys key) in
          rw away (omega (arith, one, b))
    ]
    times-keys_with (some old) keys key q w same b value = elim (Bool-cases (str_eq key q)) [
      | inl here ↦ rw here (b ∙ ap present (same here))
      | inr away ↦ rw away b
    ]

    pub store_property-set :
        {obj : JsonObject D} {ms : Members F}
        → Represents obj ms
        → (name : List ℕ) (namelen : ℕ) (value : Json F)
        → Represents
            (store_property dict obj name namelen value)
            (set ms (with_length name namelen) value)
    unfolding store_property
    store_property-set {obj} {ms} r name namelen value =
        let key : List ℕ = with_length name namelen in
        let d : D = dictionary dict obj.values in
        let (keys, n) = keys_of-set ms key value in
        let before : dict.get d key ≡ get ms key = r.values key in
        let kept : key_list (add_key dict (dict.get d key) obj.keys key)
            ≡ keys_with (get ms key) (key_list obj.keys) key =
          key_list-add_key (dict.get d key) obj.keys key
          ∙ ap (λ v. keys_with v (key_list obj.keys) key) before in
        record {
          keys = kept ∙ ap (λ ks. keys_with (get ms key) ks key) r.keys ∙ sym keys;
          values = λ q.
              laws.get-set d key value q
              ∙ ap (λ v. if str_eq key q then some value else v) (r.values q)
              ∙ sym (get-set ms key q value);
          counted =
              laws.count-set d key value
              ∙ ap (λ v. one_more v (dict.count d)) before
              ∙ ap (one_more (get ms key)) r.counted
              ∙ sym n;
          once = λ q.
              ap (times q) kept
              ∙ times-keys_with (get ms key) (key_list obj.keys) key q (get ms q)
                  (λ e. ap (get ms) (sym (str_eq→eq key q e))) (r.once q) value
              ∙ ap present (sym (get-set ms key q value));
        }

    -- What the accessors say of a stored object and of a value of the tree is the same.
    pub record Agrees (obj : JsonObject D) (self : Json F) : Type 0 where
      pub properties :
          (q : List ℕ) (qlen : ℕ) → find_property dict obj q qlen ≡ property self q qlen
      pub length : object_length dict obj ≡ json_length self
      pub items : (i : ℕ) → object_item obj i ≡ item_at self i
