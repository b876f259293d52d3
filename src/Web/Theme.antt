-- ===== src/Web/Theme.antt =====
-- frontend/src/components/theme-provider.tsx: the theme chosen, stored and shown.
use faf_hackathon_challenge.Prelude.{
  String, Bool, true, false, not, ◌||◌, Option, none, some, List, [], ◌∷◌, ◌++◌, any, select,
  if◌then◌else◌, str_eq, or_else,
}

pub data Theme : Type 0 where
  dark light system : Theme

-- "light" and "dark", the themes that can be shown.
pub data ResolvedTheme : Type 0 where
  shown_dark shown_light : ResolvedTheme

abbrev pub name : Theme → String
name dark = "dark"
name light = "light"
name system = "system"

abbrev pub class_of : ResolvedTheme → String
class_of shown_dark = "dark"
class_of shown_light = "light"

abbrev pub theme_values : List Theme
theme_values = dark ∷ light ∷ system ∷ []

abbrev named : String → List Theme → Option Theme
named value [] = none
named value (t ∷ ts) = if str_eq (name t) value then some t else named value ts

-- The value as a theme, where `isTheme` holds of it.
unfoldable pub as_theme : Option String → Option Theme
as_theme none = none
as_theme (some value) = named value theme_values

-- `getSystemTheme`, by whether the system prefers dark.
abbrev pub get_system_theme : Bool → ResolvedTheme
get_system_theme prefers_dark = if prefers_dark then shown_dark else shown_light

abbrev pub flipped : ResolvedTheme → ResolvedTheme
flipped shown_dark = shown_light
flipped shown_light = shown_dark

abbrev pub chosen : ResolvedTheme → Theme
chosen shown_dark = dark
chosen shown_light = light

abbrev pub get_next_shortcut_theme : Bool → Theme → ResolvedTheme
get_next_shortcut_theme prefers_dark dark = shown_light
get_next_shortcut_theme prefers_dark light = shown_dark
get_next_shortcut_theme prefers_dark system = flipped (get_system_theme prefers_dark)

abbrev pub resolved_theme : Bool → Theme → ResolvedTheme
resolved_theme prefers_dark dark = shown_dark
resolved_theme prefers_dark light = shown_light
resolved_theme prefers_dark system = get_system_theme prefers_dark

-- `classList` of the page's root.
abbrev pub has_class : String → List String → Bool
has_class c classes = any (λ k. str_eq k c) classes

abbrev pub remove_class : String → List String → List String
remove_class c classes = select (λ k. not (str_eq k c)) classes

abbrev pub add_class : String → List String → List String
add_class c classes = if has_class c classes then classes else classes ++ c ∷ []

pub record Provider : Type 0 where
  pub default_theme : Theme
  pub storage_key : String

-- The provider's state, what its key holds in the storage, the root's classes, what the system
-- prefers, and whether the provider listens to a change of that.
pub record Page : Type 0 where
  pub theme : Theme
  pub stored : Option String
  pub classes : List String
  pub prefers_dark : Bool
  pub listens : Bool

-- `applyTheme`, without the style that stops transitions for two frames
unfoldable pub apply_theme : Theme → Bool → List String → List String
apply_theme next_theme prefers_dark classes =
    add_class (class_of (resolved_theme prefers_dark next_theme))
      (remove_class "dark" (remove_class "light" classes))

abbrev pub is_system : Theme → Bool
is_system dark = false
is_system light = false
is_system system = true

-- The effect that runs for a theme that is new.
abbrev pub theme_effect : Page → Page
theme_effect p = record p {
  classes = apply_theme p.theme p.prefers_dark p.classes;
  listens = is_system p.theme;
}

-- `setThemeState`, and the effect where the state is another one than before.
abbrev pub set_theme_state : Theme → Page → Page
set_theme_state next p =
    if str_eq (name p.theme) (name next) then p else theme_effect (record p { theme = next })

abbrev pub initial_theme : Provider → Option String → Theme
initial_theme v stored = or_else (as_theme stored) v.default_theme

-- The provider as it is mounted on a page.
abbrev pub mount : Provider → Option String → List String → Bool → Page
mount v stored classes prefers_dark = theme_effect (record {
  theme = initial_theme v stored;
  stored = stored;
  classes = classes;
  prefers_dark = prefers_dark;
  listens = false;
})

abbrev pub set_theme : Theme → Page → Page
set_theme next p = set_theme_state next (record p { stored = some (name next) })

pub record KeyboardEvent : Type 0 where
  pub repeat : Bool
  pub meta_key : Bool
  pub ctrl_key : Bool
  pub alt_key : Bool
  -- `isEditableTarget(event.target)`
  pub editable : Bool
  pub key : String

abbrev pub shortcut : Page → Page
shortcut p = set_theme (chosen (get_next_shortcut_theme p.prefers_dark p.theme)) p

-- `lower` is `toLowerCase`.
unfoldable pub handle_key_down : (String → String) → KeyboardEvent → Page → Page
handle_key_down lower event p =
    if event.repeat
    then p
    else if event.meta_key || (event.ctrl_key || event.alt_key)
    then p
    else if event.editable
    then p
    else if not (str_eq (lower event.key) "d")
    then p
    else shortcut p

-- `event.newValue` for the provider's key in the storage it reads, which another tab has written
abbrev pub handle_new_value : Provider → Option String → Page → Page
handle_new_value v new_value p = set_theme_state (initial_theme v new_value) p

-- What another frame does: with a key of the local storage, its new value being none if removed.
pub data StorageChange : Type 0 where
  written : String → Option String → StorageChange
  -- of the whole storage; and anything in the other storage area, the session's
  cleared of_session : StorageChange

-- The change itself, which this page's provider does not see yet.
abbrev pub stored_after : Provider → StorageChange → Option String → Option String
stored_after v (written key new_value) stored =
    if str_eq key v.storage_key then new_value else stored
stored_after v cleared stored = none
stored_after v of_session stored = stored

-- The browser's event of a change, some time after it, which `handleStorageChange` reads the key and
-- the value of: a change of the whole storage has no key.
unfoldable pub handle_storage_change : Provider → StorageChange → Page → Page
handle_storage_change v (written key new_value) p =
    if str_eq key v.storage_key then handle_new_value v new_value p else p
handle_storage_change v cleared p = p
handle_storage_change v of_session p = p

-- `handleChange`, where the provider listens
unfoldable pub handle_change : Bool → Page → Page
handle_change prefers_dark p = record p {
  prefers_dark = prefers_dark;
  classes = if p.listens then apply_theme system prefers_dark p.classes else p.classes;
}

pub data PageEvent : Type 0 where
  sets_theme : Theme → PageEvent
  presses : KeyboardEvent → PageEvent
  -- another frame changes the storage, and the event of a change reaches this page
  changes_storage : StorageChange → PageEvent
  storage_event : StorageChange → PageEvent
  prefers : Bool → PageEvent

unfoldable pub page_step : (String → String) → Provider → PageEvent → Page → Page
page_step lower v (sets_theme t) p = set_theme t p
page_step lower v (presses event) p = handle_key_down lower event p
page_step lower v (changes_storage change) p = record p { stored = stored_after v change p.stored }
page_step lower v (storage_event change) p = handle_storage_change v change p
page_step lower v (prefers prefers_dark) p = handle_change prefers_dark p

unfoldable pub page_run : (String → String) → Provider → List PageEvent → Page → Page
page_run lower v [] p = p
page_run lower v (e ∷ es) p = page_run lower v es (page_step lower v e p)
