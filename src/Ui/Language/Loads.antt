-- ===== src/Ui/Language/Loads.antt =====
-- The loads in flight of frontend/src/mystic_auth/store/languageStore.ts: the last choice wins.
use manifest_cv.Prelude.{
  ◌≡◌, ◌⊎◌, inl, inr, refl, ap, ◌∙◌, ℕ, zero, suc, ◌≤◌, String, List, [], ◌∷◌, ◌++◌, Option, some,
  none, Bool, true, false, subst, any, nat_eqb, All, All-append, All-mono, if◌then◌else◌, arith,
}
use manifest_cv.Ui.Language.{
  Language, LanguageMode, resolve_languages, Load, LanguageState, set_mode, start, load_at,
  without_load, loaded, finish_load, LanguageEvent, picks, finishes, on_events, wanted,
}

module _ (P : Load → Type 0) where
  load_at-All : (i : ℕ) (ls : List Load) (l : Load) → All P ls → load_at i ls ≡ some l → P l
  load_at-All i [] l h e = absurd (cc e)
  load_at-All zero (x ∷ rest) l (p, h) e = subst P (cc e) p
  load_at-All (suc i) (x ∷ rest) l (p, h) e = load_at-All i rest l h e

  without_load-All : (i : ℕ) (ls : List Load) → All P ls → All P (without_load i ls)
  without_load-All i [] h = tt
  without_load-All zero (x ∷ rest) (p, h) = h
  without_load-All (suc i) (x ∷ rest) (p, h) = (p, without_load-All i rest h)

any-without_load :
    (p : Load → Bool) (i : ℕ) (ls : List Load) (l : Load)
    → load_at i ls ≡ some l
    → p l ≡ false
    → any p (without_load i ls) ≡ any p ls
any-without_load p i [] l e f = refl
any-without_load p zero (x ∷ rest) l e f = let same : x ≡ l = cc e in ground (arith, ap p same, f)
any-without_load p (suc i) (x ∷ rest) l e f = ground (arith, any-without_load p i rest l e f)

any-last : (p : Load → Bool) (ls : List Load) (l : Load) → p l ≡ true → any p (ls ++ l ∷ []) ≡ true
any-last p [] l e = ground (arith, e)
any-last p (x ∷ rest) l e = ground (arith, any-last p rest l e)

-- A load is not newer than the last choice, and of the last choice only if it has its language.
Fresh : ℕ → Language → Load → Type 0
Fresh v language l = (l.version ≤ v) × (l.version ≡ v → l.language ≡ language)

abbrev is_last_load : ℕ → Load → Bool
is_last_load v l = nat_eqb l.version v

-- The language of the last choice is shown, or its load is in flight.
abbrev IsCurrent : LanguageState → Type 0
IsCurrent s =
    All (Fresh s.load_version (wanted s)) s.loads
    × ((s.shown ≡ some (wanted s)) ⊎ (any (is_last_load s.load_version) s.loads ≡ true))

set_mode-IsCurrent :
    (mode : LanguageMode) (s : LanguageState) → IsCurrent s → IsCurrent (set_mode mode s)
unfolding set_mode Fresh wanted
set_mode-IsCurrent mode s (h, k) = (
  All-append (Fresh (suc s.load_version) page) s.loads (new ∷ [])
      (All-mono (Fresh s.load_version (wanted s)) (Fresh (suc s.load_version) page)
        (λ l f. (omega (arith, f.0), (λ e. absurd (omega (arith, f.0, e))))) s.loads h)
      ((omega arith, (λ e. refl)), tt),
  inr (any-last (is_last_load (suc s.load_version)) s.loads new (ground arith)),
)
  where
    page : Language
    page = (resolve_languages mode).page_language

    new : Load
    new = record { version = suc s.load_version; language = page }

finish_load-IsCurrent : (i : ℕ) (s : LanguageState) → IsCurrent s → IsCurrent (finish_load i s)
unfolding finish_load Fresh wanted
finish_load-IsCurrent i s (h, k) = go (load_at i s.loads) refl
  where
    rest : All (Fresh s.load_version (wanted s)) (without_load i s.loads)
    rest = without_load-All (Fresh s.load_version (wanted s)) i s.loads h

    go :
        (o : Option Load)
        → load_at i s.loads ≡ o
        → IsCurrent
            (elim o [ none ↦ s | some l ↦ loaded l (record s { loads = without_load i s.loads }) ])
    go none e = (h, k)
    go (some l) e = ended (nat_eqb l.version s.load_version) refl
      where
        ended :
            (b : Bool)
            → nat_eqb l.version s.load_version ≡ b
            → IsCurrent (
                if b
                then record s {
                  loads = without_load i s.loads;
                  shown = some l.language;
                  language_revision = suc s.language_revision;
                }
                else record s { loads = without_load i s.loads })
        ended true f = (
          rest,
          inl (
              ap some (
                (load_at-All (Fresh s.load_version (wanted s)) i s.loads l h e).1
                  (ground (arith, f)))),
        )
        ended false f = (
          rest,
          elim k [
            | inl shown ↦ inl shown
            | inr flying ↦
                inr (any-without_load (is_last_load s.load_version) i s.loads l e f ∙ flying)
          ],
        )

on_events-IsCurrent :
    (events : List LanguageEvent) (s : LanguageState) → IsCurrent s → IsCurrent (on_events events s)
unfolding on_events
on_events-IsCurrent [] s h = h
on_events-IsCurrent (picks mode ∷ rest) s h =
    on_events-IsCurrent rest (set_mode mode s) (set_mode-IsCurrent mode s h)
on_events-IsCurrent (finishes i ∷ rest) s h =
    on_events-IsCurrent rest (finish_load i s) (finish_load-IsCurrent i s h)

start-IsCurrent :
    (stored : Option String) (browser_lang : String) → IsCurrent (start stored browser_lang)
unfolding start Fresh wanted
start-IsCurrent stored browser_lang = (((omega arith, (λ e. refl)), tt), inr (ground arith))

-- Every load in flight ends.
abbrev pub all_finish : List Load → List LanguageEvent
all_finish [] = []
all_finish (l ∷ rest) = finishes 0 ∷ all_finish rest

finish_first :
    (s : LanguageState) (l : Load) (rest : List Load)
    → s.loads ≡ l ∷ rest
    → ((finish_load 0 s).loads ≡ rest) × ((finish_load 0 s).mode ≡ s.mode)
unfolding finish_load
finish_first s l rest e = go s.loads e
  where
    Finished : LanguageState → Type 0
    Finished t = (t.loads ≡ rest) × (t.mode ≡ s.mode)

    go :
        (ls : List Load)
        → ls ≡ l ∷ rest
        → Finished (elim (load_at 0 ls) [
          | none ↦ s
          | some x ↦ loaded x (record s { loads = without_load 0 ls })
        ])
    go [] f = absurd (cc f)
    go (x ∷ xs) f = pick (nat_eqb x.version s.load_version)
      where
        pick :
            (b : Bool)
            → Finished (
                if b
                then record s {
                  loads = xs;
                  shown = some x.language;
                  language_revision = suc s.language_revision;
                }
                else record s { loads = xs })
        pick true = (cc f, refl)
        pick false = (cc f, refl)

all_finished :
    (ls : List Load) (s : LanguageState)
    → s.loads ≡ ls
    → ((on_events (all_finish ls) s).loads ≡ []) × ((on_events (all_finish ls) s).mode ≡ s.mode)
unfolding on_events
all_finished [] s e = (e, refl)
all_finished (l ∷ rest) s e =
    let (left, same) = finish_first s l rest e in
    let (done, kept) = all_finished rest (finish_load 0 s) left in (done, kept ∙ same)

-- However often the language is picked and in whatever order loads end meanwhile, once all loads that
-- are still in flight have ended the texts are in the page language of the last choice.
pub on_events-shown :
    (stored : Option String) (browser_lang : String) (events : List LanguageEvent)
    → (on_events
        (all_finish (on_events events (start stored browser_lang)).loads)
        (on_events events (start stored browser_lang))).shown
      ≡ some (wanted (on_events events (start stored browser_lang)))
unfolding wanted
on_events-shown stored browser_lang events =
    let (done, kept) = all_finished before.loads before refl in
    elim (on_events-IsCurrent (all_finish before.loads) before (
      on_events-IsCurrent events (start stored browser_lang)
        (start-IsCurrent stored browser_lang))).1 [
          | inl shown ↦ shown ∙ ap (λ mode. some (resolve_languages mode).page_language) kept
          | inr flying ↦ absurd (cc (flying, done))
        ]
  where
    before : LanguageState
    before = on_events events (start stored browser_lang)
