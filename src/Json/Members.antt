-- ===== src/Json/Members.antt =====
-- A document that is written member by member, and what is found in it.
use business.Base.{
  ◌≡◌, refl, ap, subst, arith, ◌∙◌, true, false, List, [], ◌∷◌, Option, none, some, if◌then◌else◌,
  Option-cases, inl, inr,
}
use business.Base.Text.{Text, text_eq, text_eq_sound}
use business.Json.{JsonLib}
use business.Json.Writer.{JsonWriter, IsWriter}

module _ (J : JsonLib) where
  -- What the last assignment to `key` wrote.
  unfoldable pub last_set : Text → List (Text × J.Value) → Option (J.Value)
  unfolding text_eq
  last_set key [] = none
  last_set key ((k, w) ∷ members) = elim (last_set key members) [
    | some later ↦ some later
    | none ↦ if text_eq key k then some w else none
  ]

module _ (J : JsonLib) (W : JsonWriter J) where
  -- The assignments `v[k] = w`, in their order.
  abbrev pub set_all : J.Value → List (Text × J.Value) → J.Value
  set_all v [] = v
  set_all v ((k, w) ∷ members) = set_all (W.set v k w) members

module _ (J : JsonLib) (W : JsonWriter J) (laws : IsWriter J W) where
  pub doc_set_all :
      (v : J.Value) (members : List (Text × J.Value))
      → laws.IsDoc v
      → laws.IsDoc (set_all J W v members)
  doc_set_all v [] h = h
  doc_set_all v ((k, w) ∷ members) h = doc_set_all (W.set v k w) members (laws.doc_set v k w h)

  absent :
      (key k : Text) (w : J.Value) (members : List (Text × J.Value))
      → last_set J key ((k, w) ∷ members) ≡ none
      → (last_set J key members ≡ none) × (text_eq key k ≡ false)
  unfolding last_set
  absent key k w members h = ground arith

  here :
      (key k : Text) (u w : J.Value) (members : List (Text × J.Value))
      → last_set J key members ≡ none
      → last_set J key ((k, u) ∷ members) ≡ some w
      → (text_eq key k ≡ true) × (u ≡ w)
  unfolding last_set
  here key k u w members missing h = ground (arith, missing)

  pub at-set_all_other :
      (v : J.Value) (members : List (Text × J.Value)) (key : Text)
      → laws.IsDoc v
      → last_set J key members ≡ none
      → J.at (set_all J W v members) key ≡ J.at v key
  at-set_all_other v [] key d h = refl
  at-set_all_other v ((k, w) ∷ members) key d h =
      at-set_all_other (W.set v k w) members key (laws.doc_set v k w d) (absent key k w members h).0
      ∙ laws.at_set_ne v key k w d (absent key k w members h).1

  pub is_member-set_all_other :
      (v : J.Value) (members : List (Text × J.Value)) (key : Text)
      → laws.IsDoc v
      → last_set J key members ≡ none
      → J.is_member (set_all J W v members) key ≡ J.is_member v key
  is_member-set_all_other v [] key d h = refl
  is_member-set_all_other v ((k, w) ∷ members) key d h =
      is_member-set_all_other (W.set v k w) members key (laws.doc_set v k w d)
        (absent key k w members h).0
      ∙ laws.member_set_ne v key k w d (absent key k w members h).1

  -- What is found is what was written last.
  pub at-set_all :
      (v : J.Value) (members : List (Text × J.Value)) (key : Text) (w : J.Value)
      → laws.IsDoc v
      → last_set J key members ≡ some w
      → (J.at (set_all J W v members) key ≡ some w)
        × (J.is_member (set_all J W v members) key ≡ some true)
  unfolding last_set
  at-set_all v [] key w d h = absurd cc
  at-set_all v ((k, u) ∷ members) key w d h = elim (Option-cases (last_set J key members)) [
    | inr (later, found) ↦
        at-set_all (W.set v k u) members key w (laws.doc_set v k u d) (ground (arith, found))
    | inl missing ↦
        let (same, e) = here key k u w members missing h in
        let key_is : key ≡ k = text_eq_sound key k same in
        let gone : last_set J k members ≡ none =
          subst (λ x. last_set J x members ≡ none) key_is missing in
        rw key_is (
          at-set_all_other (W.set v k u) members k (laws.doc_set v k u d) gone
              ∙ laws.at_set v k u d
              ∙ ap some e,
          is_member-set_all_other (W.set v k u) members k (laws.doc_set v k u d) gone
              ∙ laws.member_set v k u d,
        )
  ]
