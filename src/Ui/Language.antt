-- ===== src/Ui/Language.antt =====
-- The language of the interface, frontend/src/mystic_auth/store/languageStore.ts. Loads of a language's
-- texts are in flight until they end, in any order; a load is taken to succeed.
pub mod Loads
use manifest_cv.Prelude.{
  ◌≡◌, ◌≢◌, refl, sym, ap, ◌∙◌, ℕ, zero, suc, ◌+◌, ◌≤◌, ◌<◌, String, List, [], ◌∷◌, ◌++◌, Option,
  some, none, Bool, true, false, not, includes, nat_eqb, All, All-append, All-mono, ◌==◌, string_eq,
  if◌then◌else◌, arith, inl, inr, Bool-cases, ◌⊎◌, any,
}

pub data Language : Type 0 where
  en hi mr gu : Language

pub data LanguageMode : Type 0 where
  plain : Language → LanguageMode
  -- English chrome with another language for the pages: `en+hi`, `en+mr`, `en+gu`.
  with_hi with_mr with_gu : LanguageMode

pub record ResolvedLanguages : Type 0 where
  pub chrome_language : Language
  pub page_language : Language

unfoldable pub resolve_languages : LanguageMode → ResolvedLanguages
resolve_languages (plain l) = record { chrome_language = l; page_language = l }
resolve_languages with_hi = record { chrome_language = en; page_language = hi }
resolve_languages with_mr = record { chrome_language = en; page_language = mr }
resolve_languages with_gu = record { chrome_language = en; page_language = gu }

abbrev pub language_key : Language → String
language_key en = "en"
language_key hi = "hi"
language_key mr = "mr"
language_key gu = "gu"

abbrev pub mode_key : LanguageMode → String
mode_key (plain l) = language_key l
mode_key with_hi = "en+hi"
mode_key with_mr = "en+mr"
mode_key with_gu = "en+gu"

abbrev pub language_of : String → Option Language
language_of key =
    if key == "en"
    then some en
    else if key == "hi"
    then some hi
    else if key == "mr"
    then some mr
    else if key == "gu"
    then some gu
    else none

-- `isLanguageMode`.
abbrev pub mode_of : String → Option LanguageMode
mode_of key =
    if key == "en+hi"
    then some with_hi
    else if key == "en+mr"
    then some with_mr
    else if key == "en+gu"
    then some with_gu
    else elim (language_of key) [ none ↦ none | some l ↦ some (plain l) ]

abbrev pub browser_mode : String → LanguageMode
browser_mode browser_lang = elim (language_of browser_lang) [ none ↦ plain en | some l ↦ plain l ]

-- The stored mode, or else the first two letters of the browser's language.
unfoldable pub get_initial_mode : Option String → String → LanguageMode
get_initial_mode none browser_lang = browser_mode browser_lang
get_initial_mode (some key) browser_lang = elim (mode_of key) [
  | none ↦ browser_mode browser_lang
  | some mode ↦ mode
]

-- A load in flight, with the version it was started at.
pub record Load : Type 0 where
  pub version : ℕ
  pub language : Language

-- The store, `languageLoadVersion`, the loads in flight, the language of the shown texts and the storage.
pub record LanguageState : Type 0 where
  pub mode : LanguageMode
  pub language_revision : ℕ
  pub load_version : ℕ
  pub loads : List Load
  pub shown : Option Language
  pub stored : Option String

unfoldable pub apply_mode : LanguageMode → LanguageState → LanguageState
unfolding resolve_languages
apply_mode mode s = record s {
  load_version = suc s.load_version;
  loads =
      s.loads
      ++ record { version = suc s.load_version; language = (resolve_languages mode).page_language }
        ∷ [];
}

unfoldable pub set_mode : LanguageMode → LanguageState → LanguageState
unfolding apply_mode
set_mode mode s = record (apply_mode mode s) { mode = mode; stored = some (mode_key mode) }

-- The module's first run.
unfoldable pub start : Option String → String → LanguageState
unfolding apply_mode get_initial_mode
start stored browser_lang =
    let mode = get_initial_mode stored browser_lang in
    apply_mode mode (record {
      mode = mode;
      language_revision = 0;
      load_version = 0;
      loads = [];
      shown = none;
      stored = stored;
    })

abbrev pub load_at : ℕ → List Load → Option Load
load_at i [] = none
load_at zero (l ∷ rest) = some l
load_at (suc i) (l ∷ rest) = load_at i rest

abbrev pub without_load : ℕ → List Load → List Load
without_load i [] = []
without_load zero (l ∷ rest) = rest
without_load (suc i) (l ∷ rest) = l ∷ without_load i rest

-- `if (version === languageLoadVersion)` the texts change, and the store's revision with them.
abbrev pub loaded : Load → LanguageState → LanguageState
loaded l s =
    if nat_eqb l.version s.load_version
    then record s { shown = some l.language; language_revision = suc s.language_revision }
    else s

-- The load at a place of the list ends; they may end in any order.
unfoldable pub finish_load : ℕ → LanguageState → LanguageState
finish_load i s = elim (load_at i s.loads) [
  | none ↦ s
  | some l ↦ loaded l (record s { loads = without_load i s.loads })
]

pub data LanguageEvent : Type 0 where
  picks : LanguageMode → LanguageEvent
  finishes : ℕ → LanguageEvent

unfoldable pub on_events : List LanguageEvent → LanguageState → LanguageState
unfolding set_mode finish_load
on_events [] s = s
on_events (picks mode ∷ rest) s = on_events rest (set_mode mode s)
on_events (finishes i ∷ rest) s = on_events rest (finish_load i s)

unfoldable pub wanted : LanguageState → Language
unfolding resolve_languages
wanted s = (resolve_languages s.mode).page_language

-- A stored mode is read back.
pub get_initial_mode-mode_key :
    (mode : LanguageMode) (browser_lang : String)
    → get_initial_mode (some (mode_key mode)) browser_lang ≡ mode
unfolding get_initial_mode
get_initial_mode-mode_key (plain en) browser_lang = refl
get_initial_mode-mode_key (plain hi) browser_lang = refl
get_initial_mode-mode_key (plain mr) browser_lang = refl
get_initial_mode-mode_key (plain gu) browser_lang = refl
get_initial_mode-mode_key with_hi browser_lang = refl
get_initial_mode-mode_key with_mr browser_lang = refl
get_initial_mode-mode_key with_gu browser_lang = refl
