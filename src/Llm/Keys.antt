-- ===== src/Llm/Keys.antt =====
-- apps/engine/src/engine/llm/keys.py: the caller's own keys of the model providers. Decryption is
-- a parameter; `none` is a DecryptionError.
use automated_software_engin.Prelude.{
  ℕ, ◌≡◌, refl, sym, ap, subst, ◌∙◌, inl, inr, Bool, true, false, not, ◌&&◌, ◌||◌, Option, none,
  some, List, [], ◌∷◌, ◌++◌, filter_by, is_some, ◌==◌, if◌then◌else◌, Bool-cases, Option-cases,
  Text, text_eq, text_eq→eq, arith,
}

pub record ProviderKey : Type 0 where
  pub user_id : ℕ
  -- an organization's shared key, where there is one
  pub org_id : Option ℕ
  pub provider : Text
  pub encrypted_key : Text

-- provider → plaintext
abbrev pub Keys : Type 0
Keys = List (Text × Text)

abbrev pub get_key : Text → Keys → Option Text
get_key provider [] = none
get_key provider ((k, v) ∷ keys) =
    let rest = get_key provider keys in if text_eq provider k then some v else rest

abbrev pub set_key : Text → Text → Keys → Keys
set_key provider key [] = (provider, key) ∷ []
set_key provider key ((k, v) ∷ keys) =
    let rest = set_key provider key keys in
    if text_eq provider k then (k, key) ∷ keys else (k, v) ∷ rest

abbrev pub is_personal : (user_id : ℕ) → ProviderKey → Bool
is_personal user_id row = row.user_id == user_id && not (is_some row.org_id)

abbrev pub is_shared : (org_id : Option ℕ) → ProviderKey → Bool
is_shared none row = false
is_shared (some org) row = elim row.org_id [ none ↦ false | some o ↦ o == org ]

-- `.where(visible).order_by(ProviderKey.org_id.is_(None))`
abbrev pub visible_rows : (user_id : ℕ) → (org_id : Option ℕ) → List ProviderKey → List ProviderKey
visible_rows user_id org_id table =
    let visible = filter_by (λ r. is_personal user_id r || is_shared org_id r) table in
    filter_by (λ r. is_some r.org_id) visible ++ filter_by (λ r. not (is_some r.org_id)) visible

-- `model.split("/", 1)[0]`
abbrev pub provider_of : (model : Text) → Text
provider_of [] = []
provider_of (c ∷ s) = let rest = provider_of s in if c == 47 then [] else c ∷ rest

-- `api_key_for_model`
unfoldable pub api_key_for_model : Keys → (model : Text) → Option Text
api_key_for_model keys model = get_key (provider_of model) keys

module _ (decrypt : Text → Option Text) where
  -- The loop of `load_provider_keys`.
  unfoldable pub read_keys : List ProviderKey → Keys → Keys
  read_keys [] keys = keys
  read_keys (row ∷ rows) keys = elim (decrypt row.encrypted_key) [
    | none ↦ read_keys rows keys
    | some key ↦ read_keys rows (set_key row.provider key keys)
  ]

  -- `load_provider_keys`, of the table of keys.
  unfoldable pub load_provider_keys : (user_id : ℕ) → (org_id : Option ℕ) → List ProviderKey → Keys
  unfolding read_keys
  load_provider_keys user_id org_id table = read_keys (visible_rows user_id org_id table) []

abbrev pub or_else : Option Text → Option Text → Option Text
or_else none o = o
or_else (some key) o = some key

other_provider :
    (provider other k : Text)
    → text_eq other k ≡ false
    → text_eq provider k ≡ true
    → text_eq provider other ≡ false
other_provider provider other k h e = elim (Bool-cases (text_eq provider other)) [
  | inl same ↦
      let away : text_eq provider k ≡ false =
        subst (λ t. text_eq t k ≡ false) (sym (text_eq→eq provider other same)) h in
      cc (away, e)
  | inr differ ↦ differ
]

get_key-set_key :
    (provider other key : Text) (keys : Keys)
    → get_key provider (set_key other key keys)
      ≡ (if text_eq provider other then some key else get_key provider keys)
get_key-set_key provider other key [] = ground arith
get_key-set_key provider other key ((k, v) ∷ keys) = elim (Bool-cases (text_eq other k)) [
  | inl e ↦ let same = text_eq→eq other k e in rw e (rw same (ground arith))
  | inr e ↦ rw e (elim (Bool-cases (text_eq provider k)) [
    | inl here ↦ rw here (rw (other_provider provider other k e here))
    | inr past ↦ rw past (get_key-set_key provider other key keys)
  ])
]

filter_by-filter_by :
    (p q r : ProviderKey → Bool) (rows : List ProviderKey)
    → ((row : ProviderKey) → (q row && p row) ≡ r row)
    → filter_by p (filter_by q rows) ≡ filter_by r rows
filter_by-filter_by p q r [] same = refl
filter_by-filter_by p q r (row ∷ rows) same =
    ground (arith, filter_by-filter_by p q r rows same, same row)

own_rows :
    (user_id : ℕ) (org_id : Option ℕ) (r : ProviderKey)
    → ((is_personal user_id r || is_shared org_id r) && not (is_some r.org_id))
      ≡ is_personal user_id r
own_rows user_id none r = ground arith
own_rows user_id (some org) r = elim (Option-cases r.org_id) [
  | inl e ↦ rw e (ground arith)
  | inr (o, e) ↦ rw e (ground arith)
]

shared_rows :
    (user_id : ℕ) (org_id : Option ℕ) (r : ProviderKey)
    → ((is_personal user_id r || is_shared org_id r) && is_some r.org_id) ≡ is_shared org_id r
shared_rows user_id none r = ground arith
shared_rows user_id (some org) r = elim (Option-cases r.org_id) [
  | inl e ↦ rw e (ground arith)
  | inr (o, e) ↦ rw e (ground arith)
]

module _ (decrypt : Text → Option Text) where
  -- The key of one row, where it is the provider's and decrypts.
  abbrev pub own_key : Text → ProviderKey → Option Text
  own_key provider row = if text_eq provider row.provider then decrypt row.encrypted_key else none

  -- The last key of a provider that decrypts.
  abbrev pub last_key : Text → List ProviderKey → Option Text
  last_key provider [] = none
  last_key provider (row ∷ rows) = or_else (last_key provider rows) (own_key provider row)

  or_else_assoc : (a b c : Option Text) → or_else (or_else a b) c ≡ or_else a (or_else b c)
  or_else_assoc none b c = refl
  or_else_assoc (some key) b c = refl

  or_else-none : (o : Option Text) → or_else o none ≡ o
  or_else-none none = refl
  or_else-none (some key) = refl

  last_key-append :
      (provider : Text) (xs ys : List ProviderKey)
      → last_key provider (xs ++ ys) ≡ or_else (last_key provider ys) (last_key provider xs)
  last_key-append provider [] ys = sym (or_else-none (last_key provider ys))
  last_key-append provider (x ∷ xs) ys =
      let own = own_key provider x in
      ap (λ o. or_else o own) (last_key-append provider xs ys)
      ∙ or_else_assoc (last_key provider ys) (last_key provider xs) own

  read_keys-none :
      (row : ProviderKey) (rows : List ProviderKey) (keys : Keys)
      → decrypt row.encrypted_key ≡ none
      → read_keys decrypt (row ∷ rows) keys ≡ read_keys decrypt rows keys
  unfolding read_keys
  read_keys-none row rows keys e = rw (e, read_keys) refl

  read_keys-some :
      (row : ProviderKey) (rows : List ProviderKey) (keys : Keys) (key : Text)
      → decrypt row.encrypted_key ≡ some key
      → read_keys decrypt (row ∷ rows) keys ≡ read_keys decrypt rows (set_key row.provider key keys)
  unfolding read_keys
  read_keys-some row rows keys key e = rw (e, read_keys) refl

  own_key-none :
      (provider : Text) (row : ProviderKey)
      → decrypt row.encrypted_key ≡ none
      → own_key provider row ≡ none
  own_key-none provider row e = rw e (ground arith)

  own_key-some :
      (provider : Text) (row : ProviderKey) (key : Text) (keys : Keys)
      → decrypt row.encrypted_key ≡ some key
      → or_else (own_key provider row) (get_key provider keys)
        ≡ (if text_eq provider row.provider then some key else get_key provider keys)
  own_key-some provider row key keys e = rw e (elim (Bool-cases (text_eq provider row.provider)) [
    | inl same ↦ rw same refl
    | inr other ↦ rw other refl
  ])

  -- One row of the loop, by what its key decrypts to.
  get_key-row :
      (provider : Text) (row : ProviderKey) (rows : List ProviderKey) (keys : Keys)
      (o : Option Text)
      → decrypt row.encrypted_key ≡ o
      → ((ks : Keys)
          → get_key provider (read_keys decrypt rows ks)
            ≡ or_else (last_key provider rows) (get_key provider ks))
      → get_key provider (read_keys decrypt (row ∷ rows) keys)
        ≡ or_else (last_key provider (row ∷ rows)) (get_key provider keys)
  get_key-row provider row rows keys none e rest =
      ap (get_key provider) (read_keys-none row rows keys e)
      ∙ rest keys
      ∙ ap (λ o. or_else o (get_key provider keys))
          (sym (or_else-none (last_key provider rows))
            ∙ ap (or_else (last_key provider rows)) (sym (own_key-none provider row e)))
  get_key-row provider row rows keys (some key) e rest =
      ap (get_key provider) (read_keys-some row rows keys key e)
      ∙ rest (set_key row.provider key keys)
      ∙ ap (or_else (last_key provider rows)) (
          get_key-set_key provider row.provider key keys
          ∙ sym (own_key-some provider row key keys e))
      ∙ sym (or_else_assoc (last_key provider rows) (own_key provider row) (get_key provider keys))

  get_key-read_keys :
      (provider : Text) (rows : List ProviderKey) (keys : Keys)
      → get_key provider (read_keys decrypt rows keys)
        ≡ or_else (last_key provider rows) (get_key provider keys)
  unfolding read_keys
  get_key-read_keys provider [] keys = refl
  get_key-read_keys provider (row ∷ rows) keys =
      get_key-row provider row rows keys (decrypt row.encrypted_key) refl
        (get_key-read_keys provider rows)

  -- A key of the caller outranks a key that the active organization shares: the key of a model is
  -- the caller's own for the model's provider where one decrypts, else the organization's where
  -- one decrypts, else none.
  pub api_key_for_model-outranks :
      (user_id : ℕ) (org_id : Option ℕ) (table : List ProviderKey) (model : Text)
      → api_key_for_model (load_provider_keys decrypt user_id org_id table) model
        ≡ or_else
            (last_key (provider_of model) (filter_by (is_personal user_id) table))
            (last_key (provider_of model) (filter_by (is_shared org_id) table))
  unfolding api_key_for_model load_provider_keys
  api_key_for_model-outranks user_id org_id table model =
      let provider = provider_of model in
      let visible = λ (r : ProviderKey). is_personal user_id r || is_shared org_id r in
      get_key-read_keys provider (visible_rows user_id org_id table) []
      ∙ or_else-none (last_key provider (visible_rows user_id org_id table))
      ∙ last_key-append provider (filter_by (λ r. is_some r.org_id) (filter_by visible table))
          (filter_by (λ r. not (is_some r.org_id)) (filter_by visible table))
      ∙ ap
          (λ rows.
            or_else (last_key provider rows)
              (last_key provider (filter_by (λ r. is_some r.org_id) (filter_by visible table))))
          (filter_by-filter_by _ visible (is_personal user_id) table (own_rows user_id org_id))
      ∙ ap
          (λ rows.
            or_else (last_key provider (filter_by (is_personal user_id) table))
              (last_key provider rows))
          (filter_by-filter_by _ visible (is_shared org_id) table (shared_rows user_id org_id))
