-- ===== src/Web/ThemeExamples.antt =====
-- A page that follows a dark system, on which "d" is pressed, "system" chosen and the system changed.
use faf_hackathon_challenge.Prelude.{
  ◌≡◌, ◌≢◌, refl, String, true, false, none, some, List, [], ◌∷◌, if◌then◌else◌, str_eq,
}
use faf_hackathon_challenge.Web.Theme.{
  Theme, resolved_theme, Provider, Page, KeyboardEvent, handle_key_down, mount, PageEvent,
  sets_theme, presses, changes_storage, storage_event, prefers, written, cleared, page_run,
  apply_theme, page_step, as_theme,
}
use faf_hackathon_challenge.Web.Shown.{Shows, page_run-Shows}
use faf_hackathon_challenge.Web.ThemeKept.{mount-page_run}

abbrev provider : Provider
provider = record { default_theme = Theme.system; storage_key = "theme" }

abbrev lower : String → String
lower key = if str_eq key "D" then "d" else key

abbrev pressed_d : KeyboardEvent
pressed_d = record {
  repeat = false;
  meta_key = false;
  ctrl_key = false;
  alt_key = false;
  editable = false;
  key = "d";
}

abbrev events : List PageEvent
events =
    presses pressed_d
    ∷ changes_storage (written "other" none)
    ∷ storage_event (written "other" none)
    ∷ sets_theme Theme.system
    ∷ prefers false
    ∷ presses pressed_d
    ∷ changes_storage (written "theme" (some "light"))
    ∷ storage_event (written "theme" (some "light"))
    ∷ []

abbrev visited : Page
visited = mount provider none ("font" ∷ []) true

flipped_test :
    (page_run lower provider (presses pressed_d ∷ []) visited).classes ≡ "font" ∷ "light" ∷ []
unfolding page_run page_step handle_key_down apply_theme as_theme
flipped_test = refl

page_run-Shows_example :
    Shows
      (resolved_theme
        (page_run lower provider events visited).prefers_dark
        (page_run lower provider events visited).theme)
      (page_run lower provider events visited).classes
page_run-Shows_example = page_run-Shows lower provider none ("font" ∷ []) true events

other_kept : written "other" none ≢ cleared
other_kept = λ e. cc

theme_kept : written "theme" (some "light") ≢ cleared
theme_kept = λ e. cc

mount-page_run_example :
    (mount provider (page_run lower provider events visited).stored [] false).theme
    ≡ (page_run lower provider events visited).theme
mount-page_run_example =
    mount-page_run lower provider none ("font" ∷ []) [] true false events
      (other_kept, (refl, (theme_kept, (refl, tt))))
