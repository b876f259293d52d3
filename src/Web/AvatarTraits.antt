-- ===== src/Web/AvatarTraits.antt =====
-- What an avatar can look like.
use mathlib.Core.List.{Memᴰ}
use faf_hackathon_challenge.Prelude.{
  ℕ, zero, suc, ◌+◌, ◌-◌, ◌/◌, ◌%◌, ◌≤◌, ◌<◌, String, ◌≡◌, refl, ap, ◌⊎◌, inl, inr, Option, some,
  List, [], ◌∷◌, arith, length, if◌then◌else◌, ◌==◌, truthy, Bool-cases,
}
use faf_hackathon_challenge.Web.Avatars.{
  Traits, palettes, palette_at, traits_with, map_traits, traits_of, uri_of, ◌&◌, hash_seed, svg,
  get_avatar_data_uri,
}

palette_at-listed :
    (ps : List (String × String)) (i : ℕ)
    → i < length ps
    → (p : String × String) × (palette_at ps i ≡ some p) × Memᴰ p ps
palette_at-listed [] i h = absurd (omega arith)
palette_at-listed (p ∷ ps) zero h = (p, refl, Memᴰ.head refl)
palette_at-listed (p ∷ ps) (suc i) h =
    let (q, found, listed) = palette_at-listed ps i (omega arith) in (q, found, Memᴰ.tail listed)

-- Both colours of one palette, eyes and cheeks inside of the face, which is the circle about 50 with
-- the radius 38, and a mouth that smiles or frowns.
pub record IsFace (t : Traits) : Type 0 where
  pub palette : Memᴰ (t.skin, t.accent) palettes
  pub eyes : (8 ≤ t.eye_spacing) × (t.eye_spacing ≤ 11)
  pub cheeks : (50 - 38 < 50 - t.eye_spacing - 7 - 5) × (50 + t.eye_spacing + 7 + 5 < 50 + 38)
  pub mouth : (t.mouth_y ≡ 62) ⊎ (t.mouth_y ≡ 46)

traits_with-IsFace :
    (hash : ℕ) (skin accent : String)
    → Memᴰ (skin, accent) palettes
    → IsFace (traits_with hash (skin, accent))
traits_with-IsFace hash skin accent listed = record {
  palette = listed;
  eyes = omega arith;
  cheeks = omega arith;
  mouth = elim (Bool-cases (hash / 512 % 2 == 0)) [
    | inl smiling ↦ inl (rw smiling refl)
    | inr frowning ↦ inr (rw frowning refl)
  ];
}

map_traits-IsFace :
    (hash : ℕ) (o : Option (String × String)) (p : String × String)
    → o ≡ some p
    → Memᴰ p palettes
    → (t : Traits) × (map_traits hash o ≡ some t) × IsFace t
map_traits-IsFace hash o (skin, accent) found listed = (
  traits_with hash (skin, accent),
  ap (map_traits hash) found,
  traits_with-IsFace hash skin accent listed,
)

traits_of-IsFace : (hash : ℕ) → (t : Traits) × (traits_of hash ≡ some t) × IsFace t
unfolding traits_of
traits_of-IsFace hash =
    let (p, found, listed) = palette_at-listed palettes (hash % 6) (omega arith) in
    map_traits-IsFace hash (palette_at palettes (hash % 6)) p found listed

-- Every seed has an avatar, the empty one included: no hash leads past the palettes. Its two colours
-- are of one palette, its eyes and cheeks are inside of the face, and its mouth smiles or frowns.
avatar-IsFace :
    (print : ℕ → String) (encode_uri_component : String → String) (seed : String)
    → (t : Traits) × (get_avatar_data_uri print encode_uri_component seed
        ≡ some
            ("data:image/svg+xml;utf8," & encode_uri_component (svg print encode_uri_component t)))
      × IsFace t
unfolding get_avatar_data_uri
avatar-IsFace print encode_uri_component seed =
    let (t, done, face) = traits_of-IsFace (hash_seed (if truthy seed then seed else "guest")) in
    (t, ap (uri_of print encode_uri_component) done, face)
