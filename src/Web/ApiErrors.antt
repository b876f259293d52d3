-- ===== src/Web/ApiErrors.antt =====
-- frontend/src/lib/api-client.ts: the message of a request that failed, from the body of the answer.
use Prim.Native.String.{◌++◌ as append}
use faf_hackathon_challenge.Prelude.{
  String, Bool, true, false, ◌≡◌, refl, Option, none, some, List, [], ◌∷◌, map, if◌then◌else◌,
  str_eq, truthy, arith, Bool-cases, inl, inr,
}
use faf_hackathon_challenge.Values.{
  Value, str, num, bool, undefined, null, obj, arr, elements, members, get,
}

-- `parts.join("; ")`
abbrev pub join : List String → String
join [] = ""
join (part ∷ []) = part
join (part ∷ next ∷ parts) = append part (append "; " (join (next ∷ parts)))

-- `text || null`
abbrev pub text_or_null : String → Option String
text_or_null text = if truthy text then some text else none

abbrev has_key : String → List (String × Value) → Bool
has_key k [] = false
has_key k ((j, v) ∷ o) = if str_eq j k then true else has_key k o

-- `first ?? next`
abbrev pub or_next : Option String → Option String → Option String
or_next none next = next
or_next (some text) next = some text

-- `to_text` is `String`, which writes a value as a text.
module _ (to_text : Value → String) where
  abbrev pub part_of : Value → String
  part_of (obj fs) =
      if has_key "msg" (members fs) then to_text (get "msg" (members fs)) else to_text (obj fs)
  part_of item = to_text item

  unfoldable pub extract_field : Value → Option String
  extract_field (str text) = text_or_null text
  extract_field (arr xs) = text_or_null (join (map part_of (elements xs)))
  extract_field _ = none

  -- `detail ?? message ?? error` of the fields' texts
  abbrev pub first_field : List (String × Value) → Option String
  first_field body =
      or_next (extract_field (get "detail" body))
        (or_next (extract_field (get "message" body)) (extract_field (get "error" body)))

  abbrev or_fallback : String → String
  or_fallback fallback = if truthy fallback then fallback else "Request failed"

  abbrev field_or : Option String → String → String
  field_or none fallback = or_fallback fallback
  field_or (some field) fallback = field

  -- An array has none of the three fields.
  unfoldable pub get_error_message : Value → String → String
  get_error_message (obj fs) fallback = field_or (first_field (members fs)) fallback
  get_error_message (str text) fallback = field_or (text_or_null text) fallback
  get_error_message _ fallback = or_fallback fallback

  text_or_null-truthy : (text field : String) → text_or_null text ≡ some field → truthy field ≡ true
  text_or_null-truthy text field h = ground arith

  extract_field-truthy :
      (v : Value) (field : String) → extract_field v ≡ some field → truthy field ≡ true
  unfolding extract_field
  extract_field-truthy (str text) field h = text_or_null-truthy text field h
  extract_field-truthy (arr xs) field h =
      text_or_null-truthy (join (map part_of (elements xs))) field h
  extract_field-truthy (num n) field h = cc
  extract_field-truthy (bool b) field h = cc
  extract_field-truthy undefined field h = cc
  extract_field-truthy null field h = cc
  extract_field-truthy (obj fs) field h = cc

  or_fallback-truthy : (fallback : String) → truthy (or_fallback fallback) ≡ true
  or_fallback-truthy fallback = elim (Bool-cases (truthy fallback)) [
    | inl given ↦ rw (given, truthy) given
    | inr missing ↦ rw missing refl
  ]

  first_field-truthy :
      (o p : Option String) (field : String)
      → ((f : String) → o ≡ some f → truthy f ≡ true)
      → ((f : String) → p ≡ some f → truthy f ≡ true)
      → or_next o p ≡ some field
      → truthy field ≡ true
  first_field-truthy none p field h k e = k field e
  first_field-truthy (some f) p field h k e = h field e

  field_or-truthy :
      (o : Option String) (fallback : String)
      → ((f : String) → o ≡ some f → truthy f ≡ true)
      → truthy (field_or o fallback) ≡ true
  field_or-truthy none fallback h = or_fallback-truthy fallback
  field_or-truthy (some f) fallback h = h f refl

  -- Whatever the body of the answer is, and whatever the fallback, the message of a request that
  -- failed is never empty.
  get_error_message-truthy :
      (body : Value) (fallback : String) → truthy (get_error_message body fallback) ≡ true
  unfolding get_error_message
  get_error_message-truthy (obj fs) fallback =
      let body = members fs in
      field_or-truthy (first_field body) fallback (λ f.
        first_field-truthy (extract_field (get "detail" body))
          (or_next (extract_field (get "message" body)) (extract_field (get "error" body))) f
          (extract_field-truthy (get "detail" body))
          (λ g.
            first_field-truthy (extract_field (get "message" body))
              (extract_field (get "error" body)) g (extract_field-truthy (get "message" body))
              (extract_field-truthy (get "error" body))))
  get_error_message-truthy (str text) fallback =
      field_or-truthy (text_or_null text) fallback (text_or_null-truthy text)
  get_error_message-truthy (num n) fallback = or_fallback-truthy fallback
  get_error_message-truthy (bool b) fallback = or_fallback-truthy fallback
  get_error_message-truthy undefined fallback = or_fallback-truthy fallback
  get_error_message-truthy null fallback = or_fallback-truthy fallback
  get_error_message-truthy (arr xs) fallback = or_fallback-truthy fallback
