-- ===== src/Log.antt =====
-- src/modules/log/log.c: which messages are shown, where, and under which heading. A message is the
-- string that its format makes; the time in front of it is left out.
mod Shown
mod Tests
use chic_os.Base.{
  ℕ, ◌/◌, Bool, true, false, not, ◌&&◌, Option, none, some, List, ltb, ◌==◌, if◌then◌else◌, take,
}
use chic_os.Utils.{sanitize_str}

pub data LogLevel : Type 0 where
  debug info warn error crit_error : LogLevel

-- The order of the enum.
abbrev pub rank : LogLevel → ℕ
rank debug = 0
rank info = 1
rank warn = 2
rank error = 3
rank crit_error = 4

unfoldable pub get_min_log_level : Bool → LogLevel
get_min_log_level app_debug = if app_debug then info else warn

-- The headings for a status code.
pub data Context : Type 0 where
  no_context scheduler process_handling cpu_related memory_status user_status : Context
  unknown_status : Context

-- A status code, of which -100 is `none`: the default one, the only one below 0.
unfoldable pub context_of : Option ℕ → Context
context_of none = no_context
context_of (some status) =
    let kind = status / 100 in
    if kind == 0
    then scheduler
    else (if kind == 1
        then process_handling
        else (if kind == 2
            then cpu_related
            else (if kind == 3
                then memory_status
                else (if kind == 5 then user_status else unknown_status))))

pub data Output : Type 0 where
  silent : Output
  on_terminal : LogLevel → Context → List ℕ → Output
  in_window : List ℕ → Output

-- `active` is that of the renderer, `app_debug` that of the program. `vsnprintf` keeps 254 bytes.
unfoldable pub c_log : Bool → Bool → LogLevel → LogLevel → Option ℕ → List ℕ → Output
c_log active app_debug min_log_level level status str =
    let buffer = take 254 str in
    if ltb (rank level) (rank min_log_level)
    then silent
    else (if not active
        then on_terminal level (context_of status) (sanitize_str buffer)
        else (if app_debug then in_window buffer else silent))
