-- ===== src/Json/Append.antt =====
-- The loop that makes values and appends each to the array under a key of a document, `out_jv[key].append(v)`.
use business.Base.{◌≡◌, refl, sym, ap, fun_ext, ◌∙◌, List, [], ◌∷◌, ◌++◌, append_assoc, append-nil}
use business.Base.Text.{Text}
use business.Json.{Parse, got, ◌>>=◌, call, collect, bind_got, bind_assoc, JsonLib}
use business.Json.Writer.{JsonWriter, IsWriter}

module _ (J : JsonLib) (W : JsonWriter J) where
  abbrev pub append_value : Text → J.Value → J.Value → Parse (J.Value)
  append_value key v out_jv = do
    before ← call (J.at out_jv key)
    after ← call (W.append_to before v)
    got (W.set out_jv key after)

  unfoldable pub append_loop {ℓ} :
      {A : Type ℓ} → Text → (A → Parse (J.Value)) → List A → J.Value → Parse (J.Value)
  append_loop key value [] out_jv = got out_jv
  append_loop key value (x ∷ xs) out_jv = do
    v ← value x
    longer ← append_value key v out_jv
    append_loop key value xs longer

  -- A document with an array under the key.
  abbrev pub with_array : Text → J.Value → List (J.Value) → J.Value
  with_array key head ws = W.set head key (W.array ws)

  -- Null, where nothing is appended to it.
  abbrev pub array_or_null : Text → List (J.Value) → J.Value
  array_or_null key [] = W.null_value
  array_or_null key (v ∷ vs) = with_array key W.null_value (v ∷ vs)

module _ (J : JsonLib) (W : JsonWriter J) (laws : IsWriter J W) where
  -- One loop after the other is the loop over both lists.
  pub append_loop-append {ℓ} :
      {A : Type ℓ} (key : Text) (value : A → Parse (J.Value)) (xs ys : List A) (doc : J.Value)
      → (append_loop J W key value xs doc >>= append_loop J W key value ys)
        ≡ append_loop J W key value (xs ++ ys) doc
  unfolding append_loop
  append_loop-append key value [] ys doc = refl
  append_loop-append key value (x ∷ xs) ys doc =
      bind_assoc (value x) _ _
      ∙ ap (λ f. value x >>= f)
          (fun_ext (λ v.
            bind_assoc (append_value J W key v doc) _ _
            ∙ ap (λ f. append_value J W key v doc >>= f)
                (fun_ext (λ longer. append_loop-append key value xs ys longer))))

  regroup :
      (key : Text) (head v : J.Value) (ws : List (J.Value)) (rest : Parse (List (J.Value)))
      → (rest >>= λ vs. got (with_array J W key head ((ws ++ v ∷ []) ++ vs)))
        ≡ ((rest >>= λ vs. got (v ∷ vs)) >>= λ vs. got (with_array J W key head (ws ++ vs)))
  regroup key head v ws rest =
      ap (λ f. rest >>= f)
        (fun_ext (λ vs. ap (λ us. got (with_array J W key head us)) (append_assoc ws (v ∷ []) vs)))
      ∙ sym (bind_assoc rest _ _)

  appended :
      (key : Text) (head v : J.Value) (ws : List (J.Value))
      → laws.IsDoc head
      → append_value J W key v (with_array J W key head ws)
        ≡ got (with_array J W key head (ws ++ v ∷ []))
  appended key head v ws d = bind_got _ (ap call (laws.at_set head key (W.array ws) d)) (
      bind_got _ (ap call (laws.append_array ws v))
        (ap got (laws.set_again head key (W.array ws) (W.array (ws ++ v ∷ [])) d)))

  -- The loop leaves the array of all values.
  pub append_loop-collect {ℓ} :
      {A : Type ℓ} (key : Text) (value : A → Parse (J.Value)) (xs : List A) (head : J.Value)
      (ws : List (J.Value))
      → laws.IsDoc head
      → append_loop J W key value xs (with_array J W key head ws)
        ≡ (collect value xs >>= λ vs. got (with_array J W key head (ws ++ vs)))
  unfolding append_loop collect
  append_loop-collect key value [] head ws d =
      ap (λ us. got (with_array J W key head us)) (sym (append-nil ws))
  append_loop-collect key value (x ∷ xs) head ws d =
      ap (λ f. value x >>= f)
        (fun_ext (λ v. bind_got _ (appended key head v ws d) (
          append_loop-collect key value xs head (ws ++ v ∷ []) d
          ∙ regroup key head v ws (collect value xs))))
      ∙ sym (bind_assoc (value x) _ _)

  -- The same from null.
  pub append_loop-null {ℓ} :
      {A : Type ℓ} (key : Text) (value : A → Parse (J.Value)) (xs : List A)
      → append_loop J W key value xs W.null_value
        ≡ (collect value xs >>= λ vs. got (array_or_null J W key vs))
  unfolding append_loop collect
  append_loop-null key value [] = refl
  append_loop-null key value (x ∷ xs) =
      ap (λ f. value x >>= f)
        (fun_ext (λ v.
          bind_got _
            (bind_got _ (ap call (laws.at_null key))
              (bind_got _ (ap call (laws.append_null v)) refl))
            (append_loop-collect key value xs W.null_value (v ∷ []) laws.doc_null
              ∙ sym (bind_assoc (collect value xs) _ _))))
      ∙ sym (bind_assoc (value x) _ _)
