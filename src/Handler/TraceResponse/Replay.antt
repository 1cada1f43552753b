-- ===== src/Handler/TraceResponse/Replay.antt =====
-- An event that waited, against the capture whose tracing result it gets.
use business.Base.{
  ◌≡◌, ◌⊎◌, inl, inr, refl, ap, ◌∙◌, Bool, true, false, Option, none, some, if◌then◌else◌,
  Bool-cases,
}
use business.Base.Int.{ℤ, pos, negsuc, eq_ℤ}
use business.Base.Dict.{int_sound}
use business.Base.Text.{Text, codes}
use business.Json.{Parse, thrown, refused, got, ◌>>=◌, JsonLib, parse_json, int_field, object_field}
use business.Data.Factory.{read_message}
use business.Handler.Person.{TrackResult, PersonResult, Found, read_result, get_person_result}
use business.Handler.TraceResponse.{
  accepts, not_found, keep_body, read_body, read_accepted, read_response, proc_trace_space_response,
  handle_from_redis,
}

accepts-cases : (o : Option ℤ) → accepts o ≡ true → (o ≡ some (pos 0)) ⊎ (o ≡ some (negsuc 10040))
unfolding accepts
accepts-cases none h = absurd cc
accepts-cases (some n) h = elim (Bool-cases (eq_ℤ n (pos 0))) [
  | inl zero_code ↦ inl (ap some (int_sound n (pos 0) zero_code))
  | inr other ↦ inr (ap some (int_sound n (negsuc 10040) (rw other at h)))
]

-- Inversion of a bind that has a result.
bind-got {ℓ κ} :
    {A : Type ℓ} {B : Type κ} (p : Parse A) (f : A → Parse B) {b : B}
    → (p >>= f) ≡ got b
    → (a : A) × (p ≡ got a) × (f a ≡ got b)
bind-got thrown f h = cc
bind-got refused f h = cc
bind-got (got a) f h = (a, refl, h)

module _ (J : JsonLib) (body : Text) (track : TrackResult J) (person : PersonResult J) where
  -- The members that were read when all was found.
  record IsRead (found : Found J) (body_jv : J.Value) : Type 0 where
    result : J.Value
    has_result : object_field J body_jv (codes "result") ≡ got (some result)
    is_read : read_result J result track person ≡ got found

  keep_body-kept :
      (old kept : Text) (found f : Found J)
      → keep_body J body old found ≡ got (f, kept)
      → f.ok ≡ true
      → (found ≡ f) × (kept ≡ body)
  keep_body-kept old kept found f h ok =
      let same : found ≡ f = cc in (same, kept_of (ap (λ g. g.ok) same ∙ ok))
    where
      kept_of : found.ok ≡ true → kept ≡ body
      kept_of yes_ok =
          let as_test : kept ≡ (if found.ok then body else old) = cc in as_test ∙ rw yes_ok

  read_body-IsRead :
      (r : Option (J.Value)) (body_jv : J.Value) (old kept : Text) (f : Found J)
      → object_field J body_jv (codes "result") ≡ got r
      → read_body J r body track person old ≡ got (f, kept)
      → f.ok ≡ true
      → IsRead f body_jv × (kept ≡ body)
  unfolding read_body
  read_body-IsRead none body_jv old kept f e h ok = cc
  read_body-IsRead (some result) body_jv old kept f e h ok =
      let (found, is, last) = bind-got (read_result J result track person) _ h in
      let (same, is_body) = keep_body-kept old kept found f last ok in
      (record { result = result; has_result = e; is_read = is ∙ ap got same }, is_body)

  read_accepted-IsRead :
      (b : Bool) (body_jv : J.Value) (old kept : Text) (f : Found J)
      → read_accepted J b body_jv body track person old ≡ got (f, kept)
      → f.ok ≡ true
      → (b ≡ true) × IsRead f body_jv × (kept ≡ body)
  unfolding read_accepted
  read_accepted-IsRead false body_jv old kept f h ok = cc
  read_accepted-IsRead true body_jv old kept f h ok =
      let (r, e, rest) = bind-got (object_field J body_jv (codes "result")) _ h in
      let (is, is_body) = read_body-IsRead r body_jv old kept f e rest ok in (refl, is, is_body)

  -- An accepted body again: the code tells how it was accepted.
  abbrev pub ReadAgain : Found J → J.Value → Type 0
  ReadAgain f body_jv =
      ((int_field J body_jv (codes "error_code") ≡ got (some (pos 0)))
        × (get_person_result J body track person ≡ got f))
      ⊎ ((int_field J body_jv (codes "error_code") ≡ got (some (negsuc 10040)))
          × (get_person_result J body track person ≡ got (not_found J track person)))

  again_of :
      (o : Option ℤ) (f : Found J) (body_jv : J.Value)
      → parse_json J body ≡ some body_jv
      → int_field J body_jv (codes "error_code") ≡ got o
      → accepts o ≡ true
      → IsRead f body_jv
      → ReadAgain f body_jv
  unfolding get_person_result
  again_of o f body_jv parsed code accepted is = elim (accepts-cases o accepted) [
    | inl zero_code ↦
        let c = code ∙ ap got zero_code in
        inl (c, rw (get_person_result, parsed, c, is.has_result) is.is_read)
    | inr other ↦ let c = code ∙ ap got other in inr (c, rw (get_person_result, parsed, c) refl)
  ]

  response-Again :
      (o : Option (J.Value)) (old kept : Text) (f : Found J)
      → parse_json J body ≡ o
      → read_response J o body track person old ≡ got (f, kept)
      → f.ok ≡ true
      → (kept ≡ body)
        × ((body_jv : J.Value) × (parse_json J body ≡ some body_jv) × ReadAgain f body_jv)
  unfolding read_response
  response-Again none old kept f parsed h ok = cc
  response-Again (some body_jv) old kept f parsed h ok =
      let (code, e, rest) = bind-got (int_field J body_jv (codes "error_code")) _ h in
      let (accepted, is, is_body) =
        read_accepted-IsRead (accepts code) body_jv old kept f rest ok in
      (is_body, (body_jv, parsed, again_of code f body_jv parsed e accepted is))

-- What a kept body does for an event that waits, by its error code.
abbrev pub Replays :
    (J : JsonLib) → ℤ → Text → Text → Text → TrackResult J → PersonResult J → Found J → Type 0
Replays J unset payload body kept track person f =
    (kept ≡ body)
    × ((body_jv : J.Value) × (parse_json J body ≡ some body_jv)
        × (((int_field J body_jv (codes "error_code") ≡ got (some (pos 0)))
              × (handle_from_redis J unset payload kept track person ≡ (
                  read_message J unset payload >>= λ d.
                  got (record { event = d; track = f.track; person = f.person }))))
            ⊎ ((int_field J body_jv (codes "error_code") ≡ got (some (negsuc 10040)))
                × (handle_from_redis J unset payload kept track person
                    ≡ (read_message J unset payload >>= λ d. refused)))))

-- If `ProcTraceSpaceResponse` accepts a response, it keeps the body, whose error code is 0 or -10041. With
-- 0, every readable event that waited for the body is pushed with the track and the person that the
-- capture got. With -10041 the body is kept all the same, but no event that waited is pushed:
-- `handleFromRedis` returns false unless reading the event throws.
pub handle_from_redis-accepted :
    (J : JsonLib) (unset : ℤ) (status_ok : Bool) (payload body old kept : Text)
    (track : TrackResult J) (person : PersonResult J) (f : Found J)
    → proc_trace_space_response J status_ok body track person old ≡ got (f, kept)
    → f.ok ≡ true
    → Replays J unset payload body kept track person f
unfolding proc_trace_space_response handle_from_redis
handle_from_redis-accepted J unset false payload body old kept track person f h ok = cc
handle_from_redis-accepted J unset true payload body old kept track person f h ok =
    let (is_body, (body_jv, parsed, again)) =
      response-Again J body track person (parse_json J body) old kept f refl h ok in
    (
      is_body,
      (
        body_jv,
        parsed,
        elim again [
          | inl (zero_code, e) ↦ inl (zero_code, rw (handle_from_redis, is_body, e, ok) refl)
          | inr (other, e) ↦ inr (other, rw (handle_from_redis, is_body, e) refl)
        ],
      ),
    )
