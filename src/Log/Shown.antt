-- ===== src/Log/Shown.antt =====
-- What is shown of a message.
use chic_os.Base.{
  ℕ, ◌≤◌, ◌≡◌, ◌≢◌, refl, ◌↔◌, ◌⊎◌, inl, inr, Bool, true, false, not, Option, List, arith, take,
  ltb, if◌then◌else◌, ltb-false,
}
use chic_os.Utils.{sanitize_str}
use chic_os.Log.{LogLevel, Context, rank, silent, on_terminal, in_window, c_log, context_of}

terminal_shows : (l : LogLevel) (c : Context) (s : List ℕ) → on_terminal l c s ≢ silent
terminal_shows l c s e = cc

window_shows : (s : List ℕ) → in_window s ≢ silent
window_shows s e = cc

-- The three tests, on their values.
tests_show :
    (low active app_debug : Bool) (l : LogLevel) (c : Context) (s buffer : List ℕ)
    → ((if low
          then silent
          else (if not active
              then on_terminal l c s
              else (if app_debug then in_window buffer else silent)))
        ≢ silent)
      ↔ ((low ≡ false) × ((active ≡ false) ⊎ (app_debug ≡ true)))
tests_show true active app_debug l c s buffer = (λ h. absurd (h refl), λ (e, r). cc e)
tests_show false false app_debug l c s buffer = (λ h. (refl, inl refl), λ r. terminal_shows l c s)
tests_show false true true l c s buffer = (λ h. (refl, inr refl), λ r. window_shows buffer)
tests_show false true false l c s buffer = (λ h. absurd (h refl), λ (e, r). neither r)
  where
    neither : (true ≡ false) ⊎ (false ≡ true) → silent ≢ silent
    neither (inl e) = cc
    neither (inr e) = cc

-- A message is shown exactly if its level is not below the least one, and the renderer is off or
-- the program runs for debugging.
pub c_log_shows :
    (active app_debug : Bool) (least level : LogLevel) (status : Option ℕ) (str : List ℕ)
    → (c_log active app_debug least level status str ≢ silent)
      ↔ ((rank least ≤ rank level) × ((active ≡ false) ⊎ (app_debug ≡ true)))
unfolding c_log
c_log_shows active app_debug least level status str =
    let (there, back) =
      tests_show (ltb (rank level) (rank least)) active app_debug level (context_of status)
        (sanitize_str (take 254 str)) (take 254 str) in
    (
      λ shown. let (e, r) = there shown in (ltb-false (rank level) (rank least) e, r),
      λ (le, r). back (high le, r),
    )
  where
    high : rank least ≤ rank level → ltb (rank level) (rank least) ≡ false
    high le = ground arith
