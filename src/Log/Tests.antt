-- ===== src/Log/Tests.antt =====
-- Messages under and over the least level.
use chic_os.Base.{ℕ, ◌≤◌, ◌≡◌, ◌≢◌, refl, ◌↔◌, ◌⊎◌, true, false, none, some, List, [], ◌∷◌}
use chic_os.Utils.{sanitize_str}
use chic_os.Log.{
  rank, get_min_log_level, c_log, context_of, silent, on_terminal, in_window, warn, error, debug,
  process_handling, unknown_status,
}
use chic_os.Log.Shown.{c_log_shows}

abbrev message : List ℕ
message = b'a' ∷ b'-' ∷ b'b' ∷ 10 ∷ []

log_runs :
    (c_log false false (get_min_log_level false) error (some 102) message
      ≡ on_terminal error process_handling (b'a' ∷ 32 ∷ b'b' ∷ 32 ∷ []))
    × (c_log false true (get_min_log_level true) debug none message ≡ silent)
    × (c_log true true (get_min_log_level true) warn (some 102) message ≡ in_window message)
unfolding c_log context_of get_min_log_level sanitize_str
log_runs = (refl, refl, refl)

-- A disk error has no heading of its own.
disk_runs : context_of (some 401) ≡ unknown_status
unfolding context_of
disk_runs = refl

c_log_shows_example :
    (c_log true true warn error none message ≢ silent)
    ↔ ((rank warn ≤ rank error) × ((true ≡ false) ⊎ (true ≡ true)))
c_log_shows_example = c_log_shows true true warn error none message
