-- ===== src/Web/Avatars.antt =====
-- frontend/src/lib/avatar.ts: a guest's picture from a hash of their id. A number is exact where it
-- is a safe integer, and `^` works on 32 bits with a sign.
use Prim.Native.Nat.{bit_xor}
use Prim.Native.String.{◌++◌ as append}
use faf_hackathon_challenge.Prelude.{
  ℕ, zero, suc, ◌+◌, ◌-◌, ◌*◌, ◌/◌, ◌%◌, ◌^◌, String, Bool, Option, none, some, List, [], ◌∷◌,
  length, ltb, if◌then◌else◌, ◌==◌, truthy,
}
use faf_hackathon_challenge.Prelude.Int.{ℤ, pos, negsuc}
use faf_hackathon_challenge.Values.CodeUnits.{code_units}

-- `h * 33`, and the conversions of a number to 32 bits, without and with a sign.
abbrev pub times_33 : ℤ → ℤ
times_33 (pos n) = pos (n * 33)
times_33 (negsuc n) = negsuc (n * 33 + 32)

abbrev pub to_uint32 : ℤ → ℕ
to_uint32 (pos n) = n % 2 ^ 32
to_uint32 (negsuc n) = 2 ^ 32 - 1 - n % 2 ^ 32

abbrev pub signed32 : ℕ → ℤ
signed32 w = if ltb w (2 ^ 31) then pos w else negsuc (2 ^ 32 - 1 - w)

unfoldable pub xor32 : ℤ → ℤ → ℤ
xor32 a b = signed32 (bit_xor (to_uint32 a) (to_uint32 b))

abbrev pub next_hash : ℤ → ℕ → ℤ
next_hash hash c = xor32 (times_33 hash) (pos c)

-- The loop of `hashSeed`.
unfoldable pub hash_from : ℤ → List ℕ → ℤ
hash_from hash [] = hash
hash_from hash (c ∷ cs) = hash_from (next_hash hash c) cs

-- `hash >>> 0`
unfoldable pub hash_seed : String → ℕ
unfolding hash_from
hash_seed seed = to_uint32 (hash_from (pos 5381) (code_units seed))

abbrev pub palettes : List (String × String)
palettes =
    ("#FDE68A", "#F59E0B")
    ∷ ("#A7F3D0", "#10B981")
    ∷ ("#BFDBFE", "#3B82F6")
    ∷ ("#FBCFE8", "#EC4899")
    ∷ ("#DDD6FE", "#8B5CF6")
    ∷ ("#FCA5A5", "#EF4444")
    ∷ []

-- `none` is `undefined`.
abbrev pub palette_at : List (String × String) → ℕ → Option (String × String)
palette_at [] i = none
palette_at (p ∷ ps) zero = some p
palette_at (p ∷ ps) (suc i) = palette_at ps i

pub record Traits : Type 0 where
  pub skin : String
  pub accent : String
  pub has_ears : Bool
  pub has_blush : Bool
  pub eye_spacing : ℕ
  pub mouth_y : ℕ

abbrev pub traits_with : ℕ → String × String → Traits
traits_with hash (skin, accent) = record {
  skin = skin;
  accent = accent;
  has_ears = hash / 8 % 2 == 0;
  has_blush = hash / 32 % 2 == 0;
  eye_spacing = 8 + hash / 128 % 4;
  mouth_y = if hash / 512 % 2 == 0 then 62 else 46;
}

abbrev pub map_traits : ℕ → Option (String × String) → Option Traits
map_traits hash none = none
map_traits hash (some p) = some (traits_with hash p)

-- What the hash of a seed stands for; `none` is the exception of a palette that is `undefined`.
unfoldable pub traits_of : ℕ → Option Traits
traits_of hash = map_traits hash (palette_at palettes (hash % length palettes))

infixr 60 ◌&◌
abbrev pub ◌&◌ : String → String → String
s & t = append s t

module _ (print : ℕ → String) (encode_uri_component : String → String) where
  abbrev pub svg : Traits → String
  svg t =
      let ears =
        if t.has_ears
        then "<path d=\"M20 24 L12 6 L30 17 Z\" fill=\"" & t.skin
          & "\"/><path d=\"M80 24 L88 6 L70 17 Z\" fill=\"" & t.skin & "\"/>"
        else "" in
      let blush =
        if t.has_blush
        then "<circle cx=\""
          & print (50 - t.eye_spacing - 7)
          & "\" cy=\"60\" r=\"5\" fill=\""
          & t.accent
          & "\" opacity=\"0.35\"/><circle cx=\""
          & print (50 + t.eye_spacing + 7)
          & "\" cy=\"60\" r=\"5\" fill=\""
          & t.accent
          & "\" opacity=\"0.35\"/>"
        else "" in
      "<svg xmlns=\"http://www.w3.org/2000/svg\" viewBox=\"0 0 100 100\">"
      & ears
      & "<circle cx=\"50\" cy=\"52\" r=\"38\" fill=\""
      & t.skin
      & "\"/>"
      & "<circle cx=\"50\" cy=\"52\" r=\"38\" fill=\"none\" stroke=\""
      & t.accent
      & "\" stroke-width=\"3\" opacity=\"0.5\"/>"
      & blush
      & "<circle cx=\""
      & print (50 - t.eye_spacing)
      & "\" cy=\"48\" r=\"4.5\" fill=\"#1f2937\"/>"
      & "<circle cx=\""
      & print (50 + t.eye_spacing)
      & "\" cy=\"48\" r=\"4.5\" fill=\"#1f2937\"/>"
      & "<path d=\"M"
      & print (50 - 9)
      & " 52 Q50 "
      & print t.mouth_y
      & " "
      & print (50 + 9)
      & " 52\" fill=\"none\" stroke=\"#1f2937\" stroke-width=\"3\" stroke-linecap=\"round\"/>"
      & "</svg>"

  abbrev pub uri_of : Option Traits → Option String
  uri_of none = none
  uri_of (some t) = some ("data:image/svg+xml;utf8," & encode_uri_component (svg t))

  unfoldable pub get_avatar_data_uri : String → Option String
  unfolding hash_seed traits_of
  get_avatar_data_uri seed = uri_of (traits_of (hash_seed (if truthy seed then seed else "guest")))
