-- ===== src/Providers.antt =====
-- frontend/src/context/theme.tsx, run.tsx and the language of i18n.tsx: the providers that keep a
-- choice in the browser's storage and in React's state. What is stored is modelled as the value it
-- stands for: a run's id as its number.
pub mod Reload
mod Examples
use clerq.Prelude.{
  ℕ, String, Bool, true, false, Option, none, some, List, [], ◌∷◌, get_or, if◌then◌else◌,
}
use clerq.I18n.{Lang, en, fr, detect_initial}

-- `ThemeMode`
pub data ThemeMode : Type 0 where
  light dark system : ThemeMode

pub data Shade : Type 0 where
  light_shade dark_shade : Shade

-- `os` is the system's preference.
pub record Theme : Type 0 where
  pub stored : Option ThemeMode
  pub mode : ThemeMode
  pub resolved : Shade
  pub os : Shade

-- a mode's shade, `system` being the system's
abbrev pub shade_of : ThemeMode → Shade → Shade
shade_of light os = light_shade
shade_of dark os = dark_shade
shade_of system os = os

-- the initial state of `ThemeProvider`
unfoldable pub open_theme : Option ThemeMode → Shade → Theme
open_theme stored os = record {
  stored = stored;
  mode = get_or stored dark;
  resolved = shade_of (get_or stored dark) os;
  os = os;
}

-- `setMode`
unfoldable pub set_mode : ThemeMode → Theme → Theme
set_mode m t = record t { stored = some m; mode = m; resolved = shade_of m t.os }

-- The system's preference changes: only the system mode listens.
unfoldable pub os_changed : Shade → Theme → Theme
os_changed os t = elim t.mode [
  | system ↦ record t { os = os; resolved = os }
  | _ ↦ record t { os = os }
]

pub data ThemeEvent : Type 0 where
  choose : ThemeMode → ThemeEvent
  os_turns : Shade → ThemeEvent

unfoldable pub run_theme : List ThemeEvent → Theme → Theme
unfolding set_mode os_changed
run_theme [] t = t
run_theme (choose m ∷ es) t = run_theme es (set_mode m t)
run_theme (os_turns os ∷ es) t = run_theme es (os_changed os t)

pub record ActiveRun : Type 0 where
  pub stored : Option ℕ
  pub active : Option ℕ

-- the initial state of `RunProvider`
unfoldable pub open_run : Option ℕ → ActiveRun
open_run stored = record { stored = stored; active = stored }

-- `setActiveRunId`
unfoldable pub set_active : ℕ → ActiveRun → ActiveRun
set_active id r = record r { active = some id; stored = some id }

-- `dismissRun`
unfoldable pub dismiss_run : ActiveRun → ActiveRun
dismiss_run r = record r { active = none; stored = none }

unfoldable pub run_active : List (Option ℕ) → ActiveRun → ActiveRun
unfolding set_active dismiss_run
run_active [] r = r
run_active (some id ∷ es) r = run_active es (set_active id r)
run_active (none ∷ es) r = run_active es (dismiss_run r)

pub record Language : Type 0 where
  pub stored : Option String
  pub lang : Lang

abbrev lang_name : Lang → String
lang_name en = "en"
lang_name fr = "fr"

unfoldable pub open_language : Option String → Option String → Language
open_language stored browser = record { stored = stored; lang = detect_initial stored browser }

-- `setLang`
unfoldable pub set_lang : Lang → Language → Language
set_lang l s = record s { stored = some (lang_name l); lang = l }

unfoldable pub run_language : List Lang → Language → Language
unfolding set_lang
run_language [] s = s
run_language (l ∷ ls) s = run_language ls (set_lang l s)
