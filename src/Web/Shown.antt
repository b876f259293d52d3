-- ===== src/Web/Shown.antt =====
-- The theme that a page shows, against the one that is chosen.
use faf_hackathon_challenge.Prelude.{
  ◌≡◌, refl, ◌∙◌, ap, sym, subst, String, Bool, true, false, not, ◌&&◌, ◌||◌, Option, some, List,
  [], ◌∷◌, ◌++◌, if◌then◌else◌, arith, Bool-cases, inl, inr, str_eq, eq_iff,
}
use faf_hackathon_challenge.Web.Theme.{
  Theme, dark, light, system, ResolvedTheme, shown_dark, shown_light, name, class_of, flipped,
  chosen, get_next_shortcut_theme, resolved_theme, has_class, remove_class, add_class, Provider,
  Page, apply_theme, is_system, theme_effect, set_theme_state, initial_theme, mount, KeyboardEvent,
  shortcut, handle_key_down, StorageChange, written, cleared, of_session, handle_storage_change,
  handle_change, PageEvent, sets_theme, presses, changes_storage, storage_event, prefers, page_step,
  page_run,
}

has_class-remove :
    (k c : String) (classes : List String)
    → has_class k (remove_class c classes) ≡ (if str_eq c k then false else has_class k classes)
has_class-remove k c [] = ground arith
has_class-remove k c (x ∷ xs) =
    ground (arith, eq_iff c k, eq_iff x c, eq_iff x k, has_class-remove k c xs)

has_class-append :
    (k c : String) (classes : List String)
    → has_class k (classes ++ c ∷ []) ≡ (if str_eq c k then true else has_class k classes)
has_class-append k c [] = ground arith
has_class-append k c (x ∷ xs) = ground (arith, has_class-append k c xs)

has_class-add :
    (k c : String) (classes : List String)
    → has_class k (add_class c classes) ≡ (if str_eq c k then true else has_class k classes)
has_class-add k c classes = ground (arith, has_class-append k c classes, eq_iff c k)

-- The root has the class of a theme and not of the other.
abbrev pub Shows : ResolvedTheme → List String → Type 0
Shows t classes =
    (has_class (class_of t) classes ≡ true) × (has_class (class_of (flipped t)) classes ≡ false)

cleared_class :
    (c : String) (classes : List String)
    → has_class c (remove_class "dark" (remove_class "light" classes))
      ≡ (if str_eq "dark" c then false else if str_eq "light" c then false else has_class c classes)
cleared_class c classes =
    has_class-remove c "dark" (remove_class "light" classes)
    ∙ ap (λ b. if str_eq "dark" c then false else b) (has_class-remove c "light" classes)

show :
    (t : ResolvedTheme) (classes : List String)
    → Shows t (add_class (class_of t) (remove_class "dark" (remove_class "light" classes)))
show shown_dark classes =
    let bare = remove_class "dark" (remove_class "light" classes) in
    (
      has_class-add "dark" "dark" bare,
      has_class-add "light" "dark" bare ∙ cleared_class "light" classes,
    )
show shown_light classes =
    let bare = remove_class "dark" (remove_class "light" classes) in
    (
      has_class-add "light" "light" bare,
      has_class-add "dark" "light" bare ∙ cleared_class "dark" classes,
    )

apply_theme-Shows :
    (t : Theme) (prefers_dark : Bool) (classes : List String)
    → Shows (resolved_theme prefers_dark t) (apply_theme t prefers_dark classes)
unfolding apply_theme
apply_theme-Shows t prefers_dark classes = show (resolved_theme prefers_dark t) classes

other_class :
    (t : ResolvedTheme) (c : String)
    → str_eq "dark" c ≡ false
    → str_eq "light" c ≡ false
    → str_eq (class_of t) c ≡ false
other_class shown_dark c d l = d
other_class shown_light c d l = l

-- A class that is no theme's is left alone.
apply_theme-has_class :
    (c : String) (t : Theme) (prefers_dark : Bool) (classes : List String)
    → str_eq "dark" c ≡ false
    → str_eq "light" c ≡ false
    → has_class c (apply_theme t prefers_dark classes) ≡ has_class c classes
unfolding apply_theme
apply_theme-has_class c t prefers_dark classes d l =
    let bare = remove_class "dark" (remove_class "light" classes) in
    let shown = resolved_theme prefers_dark t in
    let other = other_class shown c d l in
    has_class-add c (class_of shown) bare
    ∙ ap (λ b. if b then true else has_class c bare) other
    ∙ cleared_class c classes
    ∙ ap (λ b. if b then false else if str_eq "light" c then false else has_class c classes) d
    ∙ ap (λ b. if b then false else has_class c classes) l

-- The theme that a page should show.
abbrev pub shown : Page → ResolvedTheme
shown p = resolved_theme p.prefers_dark p.theme

-- The classes show it, and the provider listens to the system where it follows it.
abbrev pub IsShown : Page → Type 0
IsShown p = Shows (shown p) p.classes × (p.listens ≡ is_system p.theme)

theme_effect-IsShown : (p : Page) → IsShown (theme_effect p)
theme_effect-IsShown p = (apply_theme-Shows p.theme p.prefers_dark p.classes, refl)

set_theme_state-IsShown : (t : Theme) (p : Page) → IsShown p → IsShown (set_theme_state t p)
set_theme_state-IsShown t p h = elim (Bool-cases (str_eq (name p.theme) (name t))) [
  | inl same ↦ rw same h
  | inr other ↦ rw other (theme_effect-IsShown (record p { theme = t }))
]

-- The key that changes the theme: a "d" on its own, not held down, outside of a text that is edited.
abbrev pub is_shortcut : (String → String) → KeyboardEvent → Bool
is_shortcut lower e =
    not e.repeat
    && (not (e.meta_key || (e.ctrl_key || e.alt_key))
        && (not e.editable && str_eq (lower e.key) "d"))

guarded :
    (r m e k : Bool) (x y : Page)
    → (if r then y else if m then y else if e then y else if not k then y else x)
      ≡ (if not r && (not m && (not e && k)) then x else y)
guarded true m e k x y = refl
guarded false true e k x y = refl
guarded false false true k x y = refl
guarded false false false true x y = refl
guarded false false false false x y = refl

pub handle_key_down_iff :
    (lower : String → String) (e : KeyboardEvent) (p : Page)
    → handle_key_down lower e p ≡ (if is_shortcut lower e then shortcut p else p)
unfolding handle_key_down
handle_key_down_iff lower e p =
    guarded e.repeat (e.meta_key || (e.ctrl_key || e.alt_key)) e.editable (str_eq (lower e.key) "d")
      (shortcut p) p

pub handle_key_down-IsShown :
    (lower : String → String) (e : KeyboardEvent) (p : Page)
    → IsShown p
    → IsShown (handle_key_down lower e p)
handle_key_down-IsShown lower e p h =
    subst IsShown (sym (handle_key_down_iff lower e p)) (elim (Bool-cases (is_shortcut lower e)) [
      | inl pressed ↦ rw pressed (
          set_theme_state-IsShown (chosen (get_next_shortcut_theme p.prefers_dark p.theme))
            (record p {
              stored = some (name (chosen (get_next_shortcut_theme p.prefers_dark p.theme)));
            })
            h)
      | inr other ↦ rw other h
    ])

handle_storage_change-IsShown :
    (v : Provider) (c : StorageChange) (p : Page)
    → IsShown p
    → IsShown (handle_storage_change v c p)
unfolding handle_storage_change
handle_storage_change-IsShown v (written k value) p h = elim (Bool-cases (str_eq k v.storage_key)) [
  | inl same ↦ rw same (set_theme_state-IsShown (initial_theme v value) p h)
  | inr other ↦ rw other h
]
handle_storage_change-IsShown v cleared p h = h
handle_storage_change-IsShown v of_session p h = h

changed-Shows :
    (t : Theme) (listens before after : Bool) (classes : List String)
    → listens ≡ is_system t
    → Shows (resolved_theme before t) classes
    → Shows (resolved_theme after t) (if listens then apply_theme system after classes else classes)
changed-Shows dark listens before after classes e h = rw e h
changed-Shows light listens before after classes e h = rw e h
changed-Shows system listens before after classes e h =
    rw e (apply_theme-Shows system after classes)

page_step-IsShown :
    (lower : String → String) (v : Provider) (e : PageEvent) (p : Page)
    → IsShown p
    → IsShown (page_step lower v e p)
unfolding page_step handle_change
page_step-IsShown lower v (sets_theme t) p h =
    set_theme_state-IsShown t (record p { stored = some (name t) }) h
page_step-IsShown lower v (presses e) p h = handle_key_down-IsShown lower e p h
page_step-IsShown lower v (changes_storage c) p h = h
page_step-IsShown lower v (storage_event c) p h = handle_storage_change-IsShown v c p h
page_step-IsShown lower v (prefers after) p (shows, listens) =
    (changed-Shows p.theme p.listens p.prefers_dark after p.classes listens shows, listens)

page_run-IsShown :
    (lower : String → String) (v : Provider) (es : List PageEvent) (p : Page)
    → IsShown p
    → IsShown (page_run lower v es p)
unfolding page_run
page_run-IsShown lower v [] p h = h
page_run-IsShown lower v (e ∷ es) p h =
    page_run-IsShown lower v es (page_step lower v e p) (page_step-IsShown lower v e p h)

mount-IsShown :
    (v : Provider) (stored : Option String) (classes : List String) (prefers_dark : Bool)
    → IsShown (mount v stored classes prefers_dark)
mount-IsShown v stored classes prefers_dark = theme_effect-IsShown (record {
  theme = initial_theme v stored;
  stored = stored;
  classes = classes;
  prefers_dark = prefers_dark;
  listens = false;
})

-- Whatever happens on a page, choices of a theme, keys, changes of the storage by other tabs and
-- their events, in any order, and changes of what the system prefers, the root has the class of the theme that is chosen, or of the
-- one the system prefers where it is to decide, and it never has the other class as well.
pub page_run-Shows :
    (lower : String → String) (v : Provider) (stored : Option String) (classes : List String)
    (prefers_dark : Bool) (es : List PageEvent)
    → let p = page_run lower v es (mount v stored classes prefers_dark) in
      Shows (resolved_theme p.prefers_dark p.theme) p.classes
page_run-Shows lower v stored classes prefers_dark es =
    (page_run-IsShown lower v es (mount v stored classes prefers_dark)
      (mount-IsShown v stored classes prefers_dark)).0
