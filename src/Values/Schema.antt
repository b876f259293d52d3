-- ===== src/Values/Schema.antt =====
-- zod's schema language as far as the source uses it, the acceptance that its documentation
-- promises, and the record of what the code relies on.
use faf_hackathon_challenge.Prelude.{
  String, Bool, true, false, ◌&&◌, ◌≡◌, refl, List, [], ◌∷◌, if◌then◌else◌, str_eq, truthy, any,
  all,
}
use faf_hackathon_challenge.Values.{
  Value, undefined, null, bool, num, str, arr, obj, Elements, no_elements, element, is_finite,
  elements, members, get, entries,
}

mutual
  pub data Schema : Type 0 where
    -- z.string(), and z.string().min(1)
    string : Schema
    nonempty_string : Schema
    -- z.number()
    number : Schema
    -- z.array(s), and z.array(s).min(1)
    array : Schema → Schema
    nonempty_array : Schema → Schema
    -- z.enum
    one_of : List String → Schema
    -- z.record(z.string(), z.unknown())
    record_of_unknown : Schema
    -- z.object(shape), and z.object(shape).strict()
    object : Shape → Schema
    strict_object : Shape → Schema

  pub data Shape : Type 0 where
    done : Shape
    required : String → Schema → Shape → Shape
    optional : String → Schema → Shape → Shape

abbrev pub keys : Shape → List String
keys done = []
keys (required k s sh) = k ∷ keys sh
keys (optional k s sh) = k ∷ keys sh

abbrev pub is_key : List String → String → Bool
is_key ks k = any (λ j. str_eq j k) ks

-- An optional property may be absent or `undefined`.
abbrev pub if_present : (Value → Bool) → Value → Bool
if_present valid undefined = true
if_present valid null = valid null
if_present valid (bool b) = valid (bool b)
if_present valid (num n) = valid (num n)
if_present valid (str s) = valid (str s)
if_present valid (arr xs) = valid (arr xs)
if_present valid (obj fs) = valid (obj fs)

abbrev is_nonempty : Elements → Bool
is_nonempty no_elements = false
is_nonempty (element v vs) = true

unfoldable mutual
  pub accepts : Schema → Value → Bool
  accepts string (str s) = true
  accepts nonempty_string (str s) = truthy s
  accepts number (num n) = is_finite n
  accepts (array s) (arr xs) = all (accepts s) (elements xs)
  accepts (nonempty_array s) (arr xs) = is_nonempty xs && all (accepts s) (elements xs)
  accepts (one_of names) (str s) = is_key names s
  accepts record_of_unknown (obj fs) = true
  accepts (object sh) (obj fs) = accepts_shape sh (members fs)
  accepts (strict_object sh) (obj fs) =
      all (λ e. is_key (keys sh) e.0) (members fs) && accepts_shape sh (members fs)
  accepts _ _ = false

  pub accepts_shape : Shape → List (String × Value) → Bool
  accepts_shape done o = true
  accepts_shape (required k s sh) o = accepts s (get k o) && accepts_shape sh o
  accepts_shape (optional k s sh) o = if_present (accepts s) (get k o) && accepts_shape sh o

pub record Issue : Type 0 where
  pub path : List String
  pub message : String

pub data SafeParse : Type 0 where
  success : Value → SafeParse
  failure : List Issue → SafeParse

-- The schemas whose values zod hands on as they are: it strips the members of an object only.
abbrev pub is_plain : Schema → Bool
is_plain (array s) = false
is_plain (nonempty_array s) = false
is_plain (object sh) = false
is_plain (strict_object sh) = false
is_plain _ = true

abbrev pub plain_keys : Shape → List String
plain_keys done = []
plain_keys (required k s sh) = if is_plain s then k ∷ plain_keys sh else plain_keys sh
plain_keys (optional k s sh) = if is_plain s then k ∷ plain_keys sh else plain_keys sh

-- The declared keys of an object's schema that have a plain schema.
abbrev pub declared : Schema → List String
declared (object sh) = plain_keys sh
declared (strict_object sh) = plain_keys sh
declared _ = []

-- The parsed data meets the schema, and its plain properties are those of the input.
pub record Keeps (s : Schema) (v d : Value) : Type 0 where
  pub meets : accepts s d ≡ true
  pub plain : (k : String) → is_key (declared s) k ≡ true → get k (entries d) ≡ get k (entries v)

-- What the code relies on of zod: a value that meets its schema is parsed, any other is refused
-- with its issues.
pub record Zod : Type 0 where
  pub safe_parse : Schema → Value → SafeParse
  pub parses :
      (s : Schema) (v : Value)
      → accepts s v ≡ true
      → (d : Value) × (safe_parse s v ≡ success d) × Keeps s v d
  pub refuses :
      (s : Schema) (v : Value)
      → accepts s v ≡ false
      → (issues : List Issue) × (safe_parse s v ≡ failure issues)

-- A parser as the record asks for it, which shows that it can be met: it strips nothing.
abbrev pub plain_parse : Schema → Value → SafeParse
plain_parse s v = if accepts s v then success v else failure []

pub plain_parses :
    (s : Schema) (v : Value)
    → accepts s v ≡ true
    → (d : Value) × (plain_parse s v ≡ success d) × Keeps s v d
plain_parses s v h = (v, rw h refl, record { meets = h; plain = λ k e. refl })

pub plain_refuses :
    (s : Schema) (v : Value)
    → accepts s v ≡ false
    → (issues : List Issue) × (plain_parse s v ≡ failure issues)
plain_refuses s v h = ([], rw h refl)

abbrev pub plain_zod : Zod
plain_zod = record { safe_parse = plain_parse; parses = plain_parses; refuses = plain_refuses }
