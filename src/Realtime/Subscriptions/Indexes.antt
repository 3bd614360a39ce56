-- ===== src/Realtime/Subscriptions/Indexes.antt =====
-- The indexes of the store against the subscriptions that its connections hold.
pub mod Changes
use ota_api.Realtime.Subscriptions.{
  ApplicationSubscription, Store, add_to_index, is_some, or_empty, remove_all, remove_from_index,
  renumber, Application, ConnectionState, put, with_application, connect_with, disconnect_with,
  increment_application_revisions, new_connection,
}
use ota_api.Realtime.Subscriptions.Queries.{application_of, has_user_id_with}
use ota_api.Prelude.{
  Bool, Bool-cases, List, Text, [], add, arith, false, get, get-delete, get-set, if◌then◌else◌,
  includes, includes-add, includes-remove, inl, inr, is_empty, keys, nat_eq, option_text_eq, refl,
  remove, sym, text_eq, true, ℕ, ◌+◌, ◌==◌, ◌∙◌, ◌∷◌, ◌≡◌,
}

-- the index leads from the key to the socket
abbrev pub leads : Text → Text → List (Text × List Text) → Bool
leads key id index = includes (or_empty (get key index)) id

pub leads-add_to_index :
    (k s : Text) (index : List (Text × List Text)) (key id : Text)
    → leads key id (add_to_index k s index)
      ≡ (if k == key then if s == id then true else leads key id index else leads key id index)
unfolding add_to_index
leads-add_to_index k s index key id = elim (Bool-cases (k == key)) [
  | inl same ↦
      rw
        (get-set k key (add s (or_empty (get k index))) index, same, (text_eq.beq_iff k key).0 same)
        (includes-add s id (or_empty (get key index)))
  | inr other ↦ rw (get-set k key (add s (or_empty (get k index))) index, other) refl
]

includes_empty : (xs : List Text) (id : Text) → is_empty xs ≡ true → includes xs id ≡ false
includes_empty [] id e = refl
includes_empty (x ∷ xs) id e = absurd (cc e)

pub leads-remove_from_index :
    (k s : Text) (index : List (Text × List Text)) (key id : Text)
    → leads key id (remove_from_index k s index)
      ≡ (if k == key then if s == id then false else leads key id index else leads key id index)
unfolding remove_from_index
leads-remove_from_index k s index key id =
    let left = remove s (or_empty (get k index)) in
    elim (Bool-cases (is_empty left)) [
      | inl gone ↦ elim (Bool-cases (k == key)) [
        | inl same ↦
            rw (gone, get-delete k key index, same)
              (sym (includes_empty left id gone)
                ∙ includes-remove s id (or_empty (get k index))
                ∙ rw ((text_eq.beq_iff k key).0 same) refl)
        | inr other ↦ rw (gone, get-delete k key index, other) refl
      ]
      | inr kept ↦ elim (Bool-cases (k == key)) [
        | inl same ↦
            rw (kept, get-set k key left index, same)
              (includes-remove s id (or_empty (get k index))
                ∙ rw ((text_eq.beq_iff k key).0 same) refl)
        | inr other ↦ rw (kept, get-set k key left index, other) refl
      ]
    ]

pub leads-remove_all :
    (ks : List Text) (s : Text) (index : List (Text × List Text)) (key id : Text)
    → leads key id (remove_all ks s index) ≡ (
        if includes ks key
        then if s == id then false else leads key id index
        else leads key id index)
unfolding remove_all
leads-remove_all [] s index key id = refl
leads-remove_all (k ∷ ks) s index key id = ground (
  arith,
  leads-remove_all ks s (remove_from_index k s index) key id,
  leads-remove_from_index k s index key id,
)

pub is_some-renumber :
    (n : ℕ) (m : List (Text × ApplicationSubscription)) (k : Text)
    → is_some (get k (renumber n m)) ≡ is_some (get k m)
unfolding renumber get
is_some-renumber n [] k = refl
is_some-renumber n ((j, a) ∷ m) k = ground (arith, is_some-renumber (n + 1) m k)

pub is_some-get :
    (m : List (Text × ApplicationSubscription)) (k : Text) → is_some (get k m) ≡ includes (keys m) k
unfolding get keys
is_some-get [] k = refl
is_some-get ((j, a) ∷ m) k = ground (arith, is_some-get m k)

-- Both indexes lead from a key to a socket exactly where the socket's state holds the key.
abbrev pub IsIndexed : Store → Type 0
IsIndexed s =
    (key id : Text)
    → (leads key id s.application_sockets ≡ is_some (application_of key (get id s.connections)))
      × (leads key id s.user_id_sockets ≡ has_user_id_with key (get id s.connections))
