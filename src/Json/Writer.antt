-- ===== src/Json/Writer.antt =====
-- What the picture wait uses of jsoncpp to write documents, and the documented laws.
use business.Base.{◌≡◌, true, false, List, [], ◌∷◌, ◌++◌, Option, some}
use business.Base.Int.{ℤ}
use business.Base.Text.{Text, text_eq, is_empty}
use business.Json.{JsonLib}

-- `null_value` is `Json::Value()`, `set v k w` is `v[k] = w`, `append_to u w` is `u.append(w)` (an
-- exception as `none`), `array` is the value of an array, and `to_styled_string` prints.
pub record JsonWriter (J : JsonLib) : Type 0 where
  pub null_value : J.Value
  pub of_int : ℤ → J.Value
  pub of_text : Text → J.Value
  pub of_double : J.Double → J.Value
  pub array : List (J.Value) → J.Value
  pub set : J.Value → Text → J.Value → J.Value
  pub append_to : J.Value → J.Value → Option (J.Value)
  pub to_styled_string : J.Value → Text

-- `IsDoc` holds of null and of what comes of it by `set`.
pub record IsWriter (J : JsonLib) (W : JsonWriter J) : Type 1 where
  pub IsDoc : J.Value → Type 0
  pub doc_null : IsDoc W.null_value
  pub doc_set : (v : J.Value) (k : Text) (w : J.Value) → IsDoc v → IsDoc (W.set v k w)
  pub member_set :
      (v : J.Value) (k : Text) (w : J.Value) → IsDoc v → J.is_member (W.set v k w) k ≡ some true
  pub at_set : (v : J.Value) (k : Text) (w : J.Value) → IsDoc v → J.at (W.set v k w) k ≡ some w
  pub member_set_ne :
      (v : J.Value) (j k : Text) (w : J.Value)
      → IsDoc v
      → text_eq j k ≡ false
      → J.is_member (W.set v k w) j ≡ J.is_member v j
  pub at_set_ne :
      (v : J.Value) (j k : Text) (w : J.Value)
      → IsDoc v
      → text_eq j k ≡ false
      → J.at (W.set v k w) j ≡ J.at v j
  pub set_again :
      (v : J.Value) (k : Text) (a b : J.Value) → IsDoc v → W.set (W.set v k a) k b ≡ W.set v k b
  pub at_null : (k : Text) → J.at W.null_value k ≡ some W.null_value
  pub member_null : (k : Text) → J.is_member W.null_value k ≡ some false
  pub items_null : J.items W.null_value ≡ []
  pub append_null : (w : J.Value) → W.append_to W.null_value w ≡ some (W.array (w ∷ []))
  pub append_array :
      (ws : List (J.Value)) (w : J.Value)
      → W.append_to (W.array ws) w ≡ some (W.array (ws ++ w ∷ []))
  pub items_array : (ws : List (J.Value)) → J.items (W.array ws) ≡ ws
  pub is_string_text : (t : Text) → J.is_string (W.of_text t) ≡ true
  pub as_string_text : (t : Text) → J.as_string (W.of_text t) ≡ some t
  pub is_int_int : (n : ℤ) → J.is_int (W.of_int n) ≡ true
  pub as_int_int : (n : ℤ) → J.as_int (W.of_int n) ≡ some n
  pub printed : (v : J.Value) → is_empty (W.to_styled_string v) ≡ false
