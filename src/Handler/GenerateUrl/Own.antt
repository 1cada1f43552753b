-- ===== src/Handler/GenerateUrl/Own.antt =====
-- Every picture gets its own link.
use business.Base.{
  ◌≡◌, refl, sym, ap, ◌∙◌, subst, suc, ◌+◌, true, false, List, [], ◌∷◌, ◌++◌, none, some, map,
  append-nil, ◌⊎◌, length, arith, ==_refl, if◌then◌else◌, some-injective, Option-cases, Bool-cases,
  inl, inr, length-append,
}
use business.Base.Int.{ℤ}
use business.Base.Text.{Text, codes, is_empty}
use business.Handler.Url.{split_url}
use business.Handler.GenerateUrl.{
  Entry, Linked, generate_url_data, generate_url_list, take_link, read_link, gen_url_loop,
  gen_url_person, get_gen_url, url_count, proc_generate_url_response,
}
use business.Json.{got, JsonLib, parse_json, array_field}

-- What a service that makes a link of each entry makes of a picture.
unfoldable pub own : (Entry → Text × ℤ) → Linked → Linked
own service face = elim (split_url face.url) [
  | none ↦ face
  | some tmp ↦ take_link (some (service tmp)) face
]

unfoldable pub own_person : (Entry → Text × ℤ) → Linked → Linked
unfolding own
own_person service person = if is_empty person.url then person else own service person

own-split :
    (service : Entry → Text × ℤ) (face : Linked) (tmp : Entry)
    → split_url face.url ≡ some tmp
    → own service face ≡ take_link (some (service tmp)) face
unfolding own
own-split service face tmp e = rw (own, e) refl

data_nil : (list : List Entry) → generate_url_data [] ≡ some list → list ≡ []
unfolding generate_url_data
data_nil list e = sym (some-injective e)

data_cons :
    (face : Linked) (faces : List Linked) (list : List Entry)
    → generate_url_data (face ∷ faces) ≡ some list
    → (tmp : Entry) × (rest : List Entry) × (split_url face.url ≡ some tmp)
      × (generate_url_data faces ≡ some rest)
      × (list ≡ tmp ∷ rest)
unfolding generate_url_data
data_cons face faces list e = elim (Option-cases (split_url face.url)) [
  | inl no_url ↦ absurd (ground (arith, e, no_url))
  | inr (tmp, here) ↦ elim (Option-cases (generate_url_data faces)) [
    | inl no_list ↦ absurd (ground (arith, e, here, no_list))
    | inr (rest, later) ↦ (tmp, rest, here, later, ground (arith, e, here, later))
  ]
]

data-length :
    (faces : List Linked) (list : List Entry)
    → generate_url_data faces ≡ some list
    → length list ≡ length faces
data-length [] list e = ap length (data_nil list e)
data-length (face ∷ faces) list e =
    let (tmp, rest, here, later, cons) = data_cons face faces list e in
    ap length cons ∙ ap suc (data-length faces rest later)

-- The list of the faces, and then the entry of the person, if there is one.
abbrev ListOf : List Linked → Linked → List Entry → Type 0
ListOf faces person list =
    (front : List Entry) × (generate_url_data faces ≡ some front)
    × (((is_empty person.url ≡ true) × (list ≡ front))
        ⊎ ((is_empty person.url ≡ false)
            × (tmp : Entry) × (split_url person.url ≡ some tmp)
            × (list ≡ front ++ tmp ∷ [])))

list_cases :
    (faces : List Linked) (person : Linked) (list : List Entry)
    → generate_url_list faces person ≡ some list
    → ListOf faces person list
unfolding generate_url_list
list_cases faces person list e = elim (Option-cases (generate_url_data faces)) [
  | inl no_list ↦ absurd (ground (arith, e, no_list))
  | inr (front, here) ↦ elim (Bool-cases (is_empty person.url)) [
    | inl none_there ↦ (front, here, inl (none_there, ground (arith, e, here, none_there)))
    | inr there ↦ elim (Option-cases (split_url person.url)) [
      | inl no_url ↦ absurd (ground (arith, e, here, there, no_url))
      | inr (tmp, split) ↦
          (front, here, inr (there, tmp, split, ground (arith, e, here, there, split)))
    ]
  ]
]

list-length :
    (faces : List Linked) (person : Linked) (list : List Entry)
    → ListOf faces person list
    → length list ≡ (if is_empty person.url then length faces else length faces + 1)
list-length faces person list (front, e, inl (none_there, same)) =
    rw none_there (ap length same ∙ data-length faces front e)
list-length faces person list (front, e, inr (there, tmp, split, same)) =
    rw there (
      ap length same ∙ length-append front (tmp ∷ []) ∙ ap (λ n. n + 1) (data-length faces front e))

module _ (J : JsonLib) (service : Entry → Text × ℤ) where
  -- The elements answer the entries, one by one.
  abbrev pub Answers : List Entry → List (J.Value) → Type 0
  Answers [] [] = Unit
  Answers [] (v ∷ vs) = ⊥
  Answers (tmp ∷ list) [] = ⊥
  Answers (tmp ∷ list) (v ∷ vs) = (read_link J v ≡ got (some (service tmp))) × Answers list vs

  Answers-length :
      (list : List Entry) (vs : List (J.Value)) → Answers list vs → length vs ≡ length list
  Answers-length [] [] h = refl
  Answers-length [] (v ∷ vs) h = absurd h
  Answers-length (tmp ∷ list) [] h = absurd h
  Answers-length (tmp ∷ list) (v ∷ vs) h = ap suc (Answers-length list vs h.1)

  -- What the loop leaves, with the links of the faces taken over.
  abbrev Owns : List Linked → List Entry → List (J.Value) → Type 0
  Owns faces more vs =
      (rest : List (J.Value)) × (gen_url_loop J faces vs ≡ got (map (own service) faces, rest))
      × Answers more rest

  next-Owns :
      (face : Linked) (faces : List Linked) (tmp : Entry) (list more : List Entry)
      (vs : List (J.Value))
      → split_url face.url ≡ some tmp
      → ((vs : List (J.Value)) → Answers (list ++ more) vs → Owns faces more vs)
      → Answers (tmp ∷ (list ++ more)) vs
      → Owns (face ∷ faces) more vs
  unfolding gen_url_loop
  next-Owns face faces tmp list more [] here later h = absurd h
  next-Owns face faces tmp list more (v ∷ vs) here later (read, h) =
      let (rest, e, left) = later vs h in
      (rest, rw (read, e, own-split service face tmp here) refl, left)

  -- The faces' entries are the first ones.
  loop-Owns :
      (faces : List Linked) (list more : List Entry) (vs : List (J.Value))
      → generate_url_data faces ≡ some list
      → Answers (list ++ more) vs
      → Owns faces more vs
  unfolding gen_url_loop
  loop-Owns [] list more vs e h =
      (vs, refl, subst (λ l. Answers (l ++ more) vs) (data_nil list e) h)
  loop-Owns (face ∷ faces) list more vs e h =
      let (tmp, rest, here, later, cons) = data_cons face faces list e in
      next-Owns face faces tmp rest more vs here (λ ws g. loop-Owns faces rest more ws later g)
        (subst (λ l. Answers (l ++ more) vs) cons h)

  person_owns :
      (person : Linked) (tmp : Entry) (v : J.Value) (vs : List (J.Value))
      → is_empty person.url ≡ false
      → split_url person.url ≡ some tmp
      → read_link J v ≡ got (some (service tmp))
      → gen_url_person J person (v ∷ vs) ≡ got (own_person service person)
  unfolding gen_url_person own_person
  person_owns person tmp v vs there here read =
      rw (there, read, own-split service person tmp here) refl

  only_person :
      (person : Linked) (tmp : Entry) (rest : List (J.Value))
      → is_empty person.url ≡ false
      → split_url person.url ≡ some tmp
      → Answers (tmp ∷ []) rest
      → gen_url_person J person rest ≡ got (own_person service person)
  only_person person tmp [] there here h = absurd h
  only_person person tmp (v ∷ vs) there here (read, h) = person_owns person tmp v vs there here read

  no_person :
      (person : Linked) (rest : List (J.Value))
      → is_empty person.url ≡ true
      → gen_url_person J person rest ≡ got (own_person service person)
  unfolding gen_url_person own_person
  no_person person [] none_there = rw none_there refl
  no_person person (v ∷ vs) none_there = rw none_there refl

  -- All links, for what the list of the request can be.
  gen_url_owns :
      (faces : List Linked) (person : Linked) (list : List Entry) (vs : List (J.Value))
      → ListOf faces person list
      → Answers list vs
      → get_gen_url J faces person vs ≡ got (map (own service) faces, own_person service person)
  unfolding get_gen_url
  gen_url_owns faces person list vs (front, e, inl (none_there, same)) h =
      let (rest, looped, left) =
        loop-Owns faces front [] vs e
          (subst (λ l. Answers l vs) (same ∙ sym (append-nil front)) h) in
      rw (looped, no_person person rest none_there) refl
  gen_url_owns faces person list vs (front, e, inr (there, tmp, here, same)) h =
      let (rest, looped, left) =
        loop-Owns faces front (tmp ∷ []) vs e (subst (λ l. Answers l vs) same h) in
      rw (looped, only_person person tmp rest there here left) refl

-- If the list of the request can be made, and the service answers with a link for each entry of the list,
-- in order, then the response is accepted: every picture of the message, and the person's picture if
-- there is one, gets the link that the service made of its own url, and nothing else changes.
pub proc_generate_url_response-own :
    (J : JsonLib) (service : Entry → Text × ℤ) (faces : List Linked) (person : Linked)
    (list : List Entry) (body : Text) (body_jv : J.Value) (vs : List (J.Value))
    → generate_url_list faces person ≡ some list
    → is_empty body ≡ false
    → parse_json J body ≡ some body_jv
    → array_field J body_jv (codes "resultlist") ≡ got (some vs)
    → Answers J service list vs
    → proc_generate_url_response J true body faces person
      ≡ got (map (own service) faces, own_person service person)
unfolding proc_generate_url_response
proc_generate_url_response-own J service faces person list body body_jv vs asked full parsed listed
      h =
    let of = list_cases faces person list asked in
    rw
      (
        full,
        parsed,
        listed,
        Answers-length J service list vs h,
        list-length faces person list of,
        ==_refl (url_count J faces person),
      )
      (gen_url_owns J service faces person list vs of h)
