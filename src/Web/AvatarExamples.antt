-- ===== src/Web/AvatarExamples.antt =====
-- The avatar of a guest, and of nobody.
use faf_hackathon_challenge.Prelude.{◌<◌, ◌^◌, ◌≡◌, refl, true, some}
use faf_hackathon_challenge.Prelude.Int.{pos}
use faf_hackathon_challenge.Values.CodeUnits.{code_units}
use faf_hackathon_challenge.Web.Avatars.{xor32, hash_from, hash_seed, traits_of}
use faf_hackathon_challenge.Web.AvatarHash.{djb2, AreSafe, hash_seed-djb2}

-- The product has a sign on the way.
hash_test : hash_seed "guest" ≡ 172704597
unfolding hash_seed hash_from xor32 code_units
hash_test = refl

hash_seed-djb2_example :
    (hash_seed "kiki" ≡ djb2 5381 (code_units "kiki"))
    × (hash_seed "kiki" < 2 ^ 32)
    × AreSafe (pos 5381) (code_units "kiki")
hash_seed-djb2_example = hash_seed-djb2 "kiki"

-- The face of nobody.
traits_test :
    traits_of (hash_seed "guest")
    ≡ some (record {
      skin = "#FBCFE8";
      accent = "#EC4899";
      has_ears = true;
      has_blush = true;
      eye_spacing = 10;
      mouth_y = 46;
    })
unfolding traits_of hash_seed hash_from xor32 code_units
traits_test = refl
