-- ===== src/Providers/Reload.antt =====
-- Loading the page anew keeps what the user chose.
use clerq.Prelude.{◌≡◌, refl, sym, subst, String, Option, none, some, List, [], ◌∷◌}
use clerq.I18n.{Lang, en, fr, detect_initial}
use clerq.Providers.{
  ThemeMode, light, dark, system, Shade, Theme, open_theme, set_mode, os_changed, ThemeEvent,
  choose, os_turns, run_theme, Language, open_language, set_lang, run_language,
}

set_mode-open : (m : ThemeMode) (t : Theme) → set_mode m t ≡ open_theme (some m) t.os
unfolding set_mode open_theme
set_mode-open m t = refl

os_changed-open :
    (stored : Option ThemeMode) (os next : Shade)
    → os_changed next (open_theme stored os) ≡ open_theme stored next
unfolding os_changed open_theme
os_changed-open none os next = refl
os_changed-open (some light) os next = refl
os_changed-open (some dark) os next = refl
os_changed-open (some system) os next = refl

-- It is what the page begins with from what is stored now.
abbrev pub IsOpen : Theme → Type 0
IsOpen t = t ≡ open_theme t.stored t.os

-- However the user chooses modes and the system's preference changes, the theme shown is the one
-- that the page would show if it were loaded anew: the stored mode, or dark if none is stored, and
-- in the system's mode the system's present preference.
run_theme-reload :
    (es : List ThemeEvent) (stored : Option ThemeMode) (os : Shade)
    → IsOpen (run_theme es (open_theme stored os))
unfolding run_theme
run_theme-reload [] stored os = unfold open_theme in refl
run_theme-reload (choose m ∷ es) stored os =
    subst (λ t. IsOpen (run_theme es t)) (sym (set_mode-open m (open_theme stored os)))
      (run_theme-reload es (some m) (open_theme stored os).os)
run_theme-reload (os_turns next ∷ es) stored os =
    subst (λ t. IsOpen (run_theme es t)) (sym (os_changed-open stored os next))
      (run_theme-reload es stored next)

set_lang-open :
    (l : Lang) (s : Language) (browser : Option String)
    → set_lang l s ≡ open_language (set_lang l s).stored browser
unfolding set_lang open_language detect_initial
set_lang-open en s browser = refl
set_lang-open fr s browser = refl

-- The language, once detected or chosen, is the one that a new load of the page takes up.
run_language-reload :
    (ls : List Lang) (stored browser : Option String)
    → let s = run_language ls (open_language stored browser) in s ≡ open_language s.stored browser
unfolding run_language
run_language-reload ls stored browser =
    from ls (open_language stored browser) (unfold open_language in refl)
  where
    from :
        (ls : List Lang) (s : Language)
        → s ≡ open_language s.stored browser
        → let u = run_language ls s in u ≡ open_language u.stored browser
    from [] s h = h
    from (l ∷ ls) s h = from ls (set_lang l s) (set_lang-open l s browser)
