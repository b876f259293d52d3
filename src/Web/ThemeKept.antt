-- ===== src/Web/ThemeKept.antt =====
-- The theme that is kept: by the shortcut, and in the storage for the next visit.
use faf_hackathon_challenge.Prelude.{
  ◌≡◌, ◌≢◌, refl, ◌∙◌, ap, sym, subst, String, Bool, true, false, Option, none, some, List, [], ◌∷◌,
  if◌then◌else◌, Bool-cases, inl, inr, str_eq, eq_iff, or_else,
}
use faf_hackathon_challenge.Web.Theme.{
  Theme, dark, light, system, ResolvedTheme, shown_dark, shown_light, name, as_theme, flipped,
  chosen, get_next_shortcut_theme, resolved_theme, Provider, Page, set_theme_state, initial_theme,
  mount, set_theme, KeyboardEvent, shortcut, handle_key_down, StorageChange, written, cleared,
  of_session, stored_after, storage_event, handle_storage_change, handle_change, PageEvent,
  sets_theme, presses, changes_storage, prefers, page_step, page_run,
}
use faf_hackathon_challenge.Web.Shown.{
  Shows, shown, IsShown, is_shortcut, handle_key_down_iff, handle_key_down-IsShown,
}

resolved-chosen :
    (prefers_dark : Bool) (t : ResolvedTheme) → resolved_theme prefers_dark (chosen t) ≡ t
resolved-chosen prefers_dark shown_dark = refl
resolved-chosen prefers_dark shown_light = refl

next-flipped :
    (prefers_dark : Bool) (t : Theme)
    → get_next_shortcut_theme prefers_dark t ≡ flipped (resolved_theme prefers_dark t)
next-flipped prefers_dark dark = refl
next-flipped prefers_dark light = refl
next-flipped prefers_dark system = refl

-- A theme's name is read as that theme.
as_theme-name : (t : Theme) → as_theme (some (name t)) ≡ some t
unfolding as_theme
as_theme-name dark = refl
as_theme-name light = refl
as_theme-name system = refl

name_injective : (t u : Theme) → name t ≡ name u → t ≡ u
name_injective t u e =
    let same : some t ≡ some u =
      sym (as_theme-name t) ∙ ap (λ n. as_theme (some n)) e ∙ as_theme-name u in
    cc

set_theme_state-theme : (t : Theme) (p : Page) → (set_theme_state t p).theme ≡ t
set_theme_state-theme t p = elim (Bool-cases (str_eq (name p.theme) (name t))) [
  | inl same ↦ rw same (name_injective p.theme t ((eq_iff (name p.theme) (name t)).0 same))
  | inr other ↦ rw other refl
]

set_theme_state-prefers :
    (t : Theme) (p : Page) → (set_theme_state t p).prefers_dark ≡ p.prefers_dark
set_theme_state-prefers t p = elim (Bool-cases (str_eq (name p.theme) (name t))) [
  | inl same ↦ rw same refl
  | inr other ↦ rw other refl
]

set_theme_state-stored : (t : Theme) (p : Page) → (set_theme_state t p).stored ≡ p.stored
set_theme_state-stored t p = elim (Bool-cases (str_eq (name p.theme) (name t))) [
  | inl same ↦ rw same refl
  | inr other ↦ rw other refl
]

shortcut-flips : (p : Page) → shown (shortcut p) ≡ flipped (shown p)
shortcut-flips p =
    let next = get_next_shortcut_theme p.prefers_dark p.theme in
    let after = record p { stored = some (name (chosen next)) } in
    ap (λ d. resolved_theme d (set_theme_state (chosen next) after).theme)
      (set_theme_state-prefers (chosen next) after)
    ∙ ap (resolved_theme p.prefers_dark) (set_theme_state-theme (chosen next) after)
    ∙ resolved-chosen p.prefers_dark next
    ∙ next-flipped p.prefers_dark p.theme

shown_if :
    (b : Bool) (p : Page)
    → shown (if b then shortcut p else p) ≡ (if b then flipped (shown p) else shown p)
shown_if true p = shortcut-flips p
shown_if false p = refl

kept_if : (b : Bool) (p q : Page) → q ≡ (if b then shortcut p else p) → q ≡ (if b then q else p)
kept_if true p q e = refl
kept_if false p q e = e

-- A "d" that is pressed on its own, not held down and not while a text is edited, changes the theme
-- shown, dark to light and light to dark, also where the system decided on it, and the root's classes
-- with it; any other key leaves the page as it is. The page is any that shows its theme.
handle_key_down-flips :
    (lower : String → String) (e : KeyboardEvent) (p : Page)
    → IsShown p
    → let q = handle_key_down lower e p in
      (shown q ≡ (if is_shortcut lower e then flipped (shown p) else shown p))
      × Shows (shown q) q.classes
      × (q ≡ (if is_shortcut lower e then q else p))
handle_key_down-flips lower e p h =
    let pressed = handle_key_down_iff lower e p in
    (
      ap shown pressed ∙ shown_if (is_shortcut lower e) p,
      (handle_key_down-IsShown lower e p h).0,
      kept_if (is_shortcut lower e) p (handle_key_down lower e p) pressed,
    )

-- The theme is the one that the storage's value gives.
abbrev pub IsKept : Provider → Page → Type 0
IsKept v p = initial_theme v p.stored ≡ p.theme

set_theme_state-IsKept :
    (v : Provider) (t : Theme) (p : Page)
    → initial_theme v p.stored ≡ t
    → IsKept v (set_theme_state t p)
set_theme_state-IsKept v t p e =
    ap (initial_theme v) (set_theme_state-stored t p) ∙ e ∙ sym (set_theme_state-theme t p)

set_theme-IsKept : (v : Provider) (t : Theme) (p : Page) → IsKept v (set_theme t p)
set_theme-IsKept v t p =
    set_theme_state-IsKept v t (record p { stored = some (name t) })
      (ap (λ o. or_else o v.default_theme) (as_theme-name t))

-- Every change by another tab reaches the page before anything else happens there, and none clears the
-- whole storage: the change that is on its way, if any, and the events to come.
abbrev pub IsDelivered : Option StorageChange → List PageEvent → Type 0
IsDelivered none [] = Unit
IsDelivered none (sets_theme t ∷ es) = IsDelivered none es
IsDelivered none (presses e ∷ es) = IsDelivered none es
IsDelivered none (prefers after ∷ es) = IsDelivered none es
IsDelivered none (changes_storage c ∷ es) = (c ≢ cleared) × IsDelivered (some c) es
IsDelivered none (storage_event c ∷ es) = ⊥
IsDelivered (some c) (storage_event d ∷ es) = (c ≡ d) × IsDelivered none es
IsDelivered (some c) _ = ⊥

presses-IsKept :
    (lower : String → String) (v : Provider) (e : KeyboardEvent) (p : Page)
    → IsKept v p
    → IsKept v (handle_key_down lower e p)
presses-IsKept lower v e p h =
    subst (IsKept v) (sym (handle_key_down_iff lower e p))
      (elim (Bool-cases (is_shortcut lower e)) [
        | inl pressed ↦
            rw pressed
              (set_theme-IsKept v (chosen (get_next_shortcut_theme p.prefers_dark p.theme)) p)
        | inr other ↦ rw other h
      ])

-- A change by another tab, and then its event.
delivered-IsKept :
    (v : Provider) (c : StorageChange) (p : Page)
    → c ≢ cleared
    → IsKept v p
    → IsKept v (handle_storage_change v c (record p { stored = stored_after v c p.stored }))
unfolding handle_storage_change
delivered-IsKept v (written k value) p n h = elim (Bool-cases (str_eq k v.storage_key)) [
  | inl same ↦
      rw same (set_theme_state-IsKept v (initial_theme v value) (record p { stored = value }) refl)
  | inr other ↦ rw other h
]
delivered-IsKept v cleared p n h = absurd (n refl)
delivered-IsKept v of_session p n h = h

-- The theme is kept, or it will be when the change that is on its way has come.
abbrev WillBeKept : Provider → Option StorageChange → Page → Type 0
WillBeKept v none p = IsKept v p
WillBeKept v (some c) p = IsKept v (handle_storage_change v c p)

page_run-IsKept :
    (lower : String → String) (v : Provider) (o : Option StorageChange) (es : List PageEvent)
    (p : Page)
    → IsDelivered o es
    → WillBeKept v o p
    → IsKept v (page_run lower v es p)
unfolding page_run page_step handle_change
page_run-IsKept lower v none [] p d h = h
page_run-IsKept lower v none (sets_theme t ∷ es) p d h =
    page_run-IsKept lower v none es (set_theme t p) d (set_theme-IsKept v t p)
page_run-IsKept lower v none (presses e ∷ es) p d h =
    page_run-IsKept lower v none es (handle_key_down lower e p) d (presses-IsKept lower v e p h)
page_run-IsKept lower v none (prefers after ∷ es) p d h =
    page_run-IsKept lower v none es (handle_change after p) d h
page_run-IsKept lower v none (changes_storage c ∷ es) p (n, d) h =
    page_run-IsKept lower v (some c) es (record p { stored = stored_after v c p.stored }) d
      (delivered-IsKept v c p n h)
page_run-IsKept lower v none (storage_event c ∷ es) p d h = absurd d
page_run-IsKept lower v (some c) (storage_event e ∷ es) p (same, d) h =
    page_run-IsKept lower v none es (handle_storage_change v e p) d
      (subst (λ f. IsKept v (handle_storage_change v f p)) same h)
page_run-IsKept lower v (some c) [] p d h = absurd d
page_run-IsKept lower v (some c) (sets_theme t ∷ es) p d h = absurd d
page_run-IsKept lower v (some c) (presses e ∷ es) p d h = absurd d
page_run-IsKept lower v (some c) (prefers after ∷ es) p d h = absurd d
page_run-IsKept lower v (some c) (changes_storage e ∷ es) p d h = absurd d

-- The next visit finds the theme of this one: mounted again on what is stored after anything that
-- happens on the page, on whatever classes and preference of the system, the provider has the theme
-- that it had, as long as every change that another tab makes to the storage reaches the page before
-- anything else happens there, and none clears the whole storage.
pub mount-page_run :
    (lower : String → String) (v : Provider) (stored : Option String) (before after : List String)
    (prefers_dark prefers_after : Bool) (es : List PageEvent)
    → IsDelivered none es
    → (mount v
        (page_run lower v es (mount v stored before prefers_dark)).stored
        after
        prefers_after).theme
      ≡ (page_run lower v es (mount v stored before prefers_dark)).theme
mount-page_run lower v stored before after prefers_dark prefers_after es d =
    page_run-IsKept lower v none es (mount v stored before prefers_dark) d refl
