-- ===== src/Render/Layout.antt =====
-- How the windows lie on the screen.
use chic_os.Base.{
  ℕ, ◌+◌, ◌-◌, ◌*◌, ◌/◌, ◌≤◌, ◌<◌, ◌≡◌, refl, ◌∙◌, ap, ◌⊎◌, inl, inr, Bool, true, false, ◌&&◌,
  arith, leb, ltb, dec_lt, subst, sym, ◌==◌,
}
use chic_os.Render.{Window, Renderer, init_renderer}

-- Whether the cell in line `y` and column `x` is the window's.
abbrev pub covers : Window → ℕ → ℕ → Bool
covers win y x = (leb win.y y && ltb y (win.y + win.h)) && (leb win.x x && ltb x (win.x + win.w))

abbrev one : Bool → ℕ
one true = 1
one false = 0

-- How many of the windows a cell is in.
abbrev pub windows_at : Renderer → ℕ → ℕ → ℕ
windows_at r y x =
    one (covers r.status_win y x)
    + (one (covers r.left_panel y x)
        + (one (covers r.left_bottom y x)
            + (one (covers r.right_top y x)
                + (one (covers r.right_mid y x) + one (covers r.right_bottom y x)))))

abbrev pub Fits : Window → ℕ → ℕ → Type 0
Fits win lines cols = (win.y + win.h ≤ lines) × (win.x + win.w ≤ cols)

covers_in :
    (win : Window) (y x : ℕ)
    → win.y ≤ y
    → y < win.y + win.h
    → win.x ≤ x
    → x < win.x + win.w
    → covers win y x ≡ true
covers_in win y x l1 l2 l3 l4 = ground arith

-- The cell is above the window, below it, to its left or to its right.
abbrev Beside : Window → ℕ → ℕ → Type 0
Beside win y x = (y < win.y) ⊎ ((win.y + win.h ≤ y) ⊎ ((x < win.x) ⊎ (win.x + win.w ≤ x)))

covers_out : (win : Window) (y x : ℕ) → Beside win y x → covers win y x ≡ false
covers_out win y x (inl l) = ground arith
covers_out win y x (inr (inl l)) = ground arith
covers_out win y x (inr (inr (inl l))) = ground arith
covers_out win y x (inr (inr (inr l))) = ground arith

count_one :
    (r : Renderer) (y x : ℕ) (a b c d e f : Bool)
    → covers r.status_win y x ≡ a
    → covers r.left_panel y x ≡ b
    → covers r.left_bottom y x ≡ c
    → covers r.right_top y x ≡ d
    → covers r.right_mid y x ≡ e
    → covers r.right_bottom y x ≡ f
    → one a + (one b + (one c + (one d + (one e + one f)))) ≡ 1
    → windows_at r y x ≡ 1
count_one r y x a b c d e f h1 h2 h3 h4 h5 h6 sum =
    ap
      (λ v.
        one v
        + (one (covers r.left_panel y x)
            + (one (covers r.left_bottom y x)
                + (one (covers r.right_top y x)
                    + (one (covers r.right_mid y x) + one (covers r.right_bottom y x))))))
      h1
    ∙ ap
        (λ v.
          one a
          + (one v
              + (one (covers r.left_bottom y x)
                  + (one (covers r.right_top y x)
                      + (one (covers r.right_mid y x) + one (covers r.right_bottom y x))))))
        h2
    ∙ ap
        (λ v.
          one a
          + (one b
              + (one v
                  + (one (covers r.right_top y x)
                      + (one (covers r.right_mid y x) + one (covers r.right_bottom y x))))))
        h3
    ∙ ap
        (λ v.
          one a
          + (one b
              + (one c
                  + (one v + (one (covers r.right_mid y x) + one (covers r.right_bottom y x))))))
        h4
    ∙ ap (λ v. one a + (one b + (one c + (one d + (one v + one (covers r.right_bottom y x)))))) h5
    ∙ ap (λ v. one a + (one b + (one c + (one d + (one e + one v))))) h6
    ∙ sum

abbrev newwin : ℕ → ℕ → ℕ → ℕ → Window
newwin h w y x = record { h = h; w = w; y = y; x = x }

-- The windows as they are asked for.
abbrev wanted : ℕ → ℕ → Renderer
wanted more cols =
    let height_top = (more + 11 - 1 - 6) / 2 in
    let height_mid = more + 11 - 1 - 6 - height_top in
    record {
      status_win = newwin 1 cols 0 0;
      left_panel = newwin (more + 11 - 11) (cols / 2) 1 0;
      left_bottom = newwin 10 (cols / 2) (1 + (more + 11 - 11)) 0;
      right_top = newwin height_top (cols / 2) 1 (cols / 2);
      right_mid = newwin height_mid (cols / 2) (1 + height_top) (cols / 2);
      right_bottom = newwin 6 (cols / 2) (1 + height_top + height_mid) (cols / 2);
    }

-- None of them is asked for without lines or columns.
init_renderer-wanted :
    (more cols : ℕ) → 0 < more → 1 < cols → init_renderer more cols ≡ wanted more cols
unfolding init_renderer
init_renderer-wanted more cols tall wide = rw (h_left, w_all, w_half, h_top, h_mid) refl
  where
    h_left : ((more + 11 - 11) == 0) ≡ false
    h_left = ground arith

    w_all : (cols == 0) ≡ false
    w_all = ground arith

    w_half : ((cols / 2) == 0) ≡ false
    w_half = ground arith

    h_top : (((more + 11 - 1 - 6) / 2) == 0) ≡ false
    h_top = ground arith

    h_mid : ((more + 11 - 1 - 6 - (more + 11 - 1 - 6) / 2) == 0) ≡ false
    h_mid = ground arith

module _ (more cols y x : ℕ) where
  screen : Renderer
  screen = wanted more cols

  top : ℕ
  top = (more + 11 - 1 - 6) / 2

  in_status : y < 1 → x < 2 * (cols / 2) → windows_at screen y x ≡ 1
  unfolding screen
  in_status hy hx =
      count_one screen y x true false false false false false
        (covers_in screen.status_win y x (omega arith) (omega arith) (omega arith) (omega arith))
        (covers_out screen.left_panel y x (inl (omega arith)))
        (covers_out screen.left_bottom y x (inl (omega arith)))
        (covers_out screen.right_top y x (inl (omega arith)))
        (covers_out screen.right_mid y x (inl (omega arith)))
        (covers_out screen.right_bottom y x (inl (omega arith))) refl

  in_left : 0 < y → y < more + 11 → x < cols / 2 → windows_at screen y x ≡ 1
  unfolding screen
  in_left lo hy hx = elim (dec_lt y (1 + more)) [
    | yes up ↦
        count_one screen y x false true false false false false
          (covers_out screen.status_win y x (inr (inl (omega arith))))
          (covers_in screen.left_panel y x (omega arith) (omega arith) (omega arith) (omega arith))
          (covers_out screen.left_bottom y x (inl (omega arith)))
          (covers_out screen.right_top y x (inr (inr (inl (omega arith)))))
          (covers_out screen.right_mid y x (inr (inr (inl (omega arith)))))
          (covers_out screen.right_bottom y x (inr (inr (inl (omega arith))))) refl
    | no down ↦
        count_one screen y x false false true false false false
          (covers_out screen.status_win y x (inr (inl (omega arith))))
          (covers_out screen.left_panel y x (inr (inl (omega arith))))
          (covers_in screen.left_bottom y x (omega arith) (omega arith) (omega arith) (omega arith))
          (covers_out screen.right_top y x (inr (inr (inl (omega arith)))))
          (covers_out screen.right_mid y x (inr (inr (inl (omega arith)))))
          (covers_out screen.right_bottom y x (inr (inr (inl (omega arith))))) refl
  ]

  in_right : 0 < y → y < more + 11 → cols / 2 ≤ x → x < 2 * (cols / 2) → windows_at screen y x ≡ 1
  unfolding screen top
  in_right lo hy left hx = elim (dec_lt y (1 + top)) [
    | yes up ↦
        count_one screen y x false false false true false false
          (covers_out screen.status_win y x (inr (inl (omega arith))))
          (covers_out screen.left_panel y x (inr (inr (inr (omega arith)))))
          (covers_out screen.left_bottom y x (inr (inr (inr (omega arith)))))
          (covers_in screen.right_top y x (omega arith) (omega arith) (omega arith) (omega arith))
          (covers_out screen.right_mid y x (inl (omega arith)))
          (covers_out screen.right_bottom y x (inl (omega arith))) refl
    | no down ↦ elim (dec_lt y (more + 5)) [
      | yes up ↦
          count_one screen y x false false false false true false
            (covers_out screen.status_win y x (inr (inl (omega arith))))
            (covers_out screen.left_panel y x (inr (inr (inr (omega arith)))))
            (covers_out screen.left_bottom y x (inr (inr (inr (omega arith)))))
            (covers_out screen.right_top y x (inr (inl (omega arith))))
            (covers_in screen.right_mid y x (omega arith) (omega arith) (omega arith) (omega arith))
            (covers_out screen.right_bottom y x (inl (omega arith))) refl
      | no last ↦
          count_one screen y x false false false false false true
            (covers_out screen.status_win y x (inr (inl (omega arith))))
            (covers_out screen.left_panel y x (inr (inr (inr (omega arith)))))
            (covers_out screen.left_bottom y x (inr (inr (inr (omega arith)))))
            (covers_out screen.right_top y x (inr (inl (omega arith))))
            (covers_out screen.right_mid y x (inr (inl (omega arith))))
            (covers_in screen.right_bottom y x (omega arith) (omega arith) (omega arith)
              (omega arith))
            refl
    ]
  ]

  covered_once : y < more + 11 → x < 2 * (cols / 2) → windows_at screen y x ≡ 1
  covered_once hy hx = elim (dec_lt y 1) [
    | yes first ↦ in_status first hx
    | no later ↦ elim (dec_lt x (cols / 2)) [
      | yes left ↦ in_left (omega arith) hy left
      | no right ↦ in_right (omega arith) hy (omega arith) hx
    ]
  ]

wanted-tiles :
    (more cols : ℕ)
    → (Fits (wanted more cols).status_win (more + 11) cols
        × Fits (wanted more cols).left_panel (more + 11) cols
        × Fits (wanted more cols).left_bottom (more + 11) cols
        × Fits (wanted more cols).right_top (more + 11) cols
        × Fits (wanted more cols).right_mid (more + 11) cols
        × Fits (wanted more cols).right_bottom (more + 11) cols)
      × ((y x : ℕ) → y < more + 11 → x < 2 * (cols / 2) → windows_at (wanted more cols) y x ≡ 1)
unfolding screen
wanted-tiles more cols = (
  (
    (omega arith, omega arith),
    (omega arith, omega arith),
    (omega arith, omega arith),
    (omega arith, omega arith),
    (omega arith, omega arith),
    (omega arith, omega arith),
  ),
  covered_once more cols,
)

-- On a terminal of at least twelve lines and two columns, each window lies within the screen, and each cell, but for
-- the last column of an odd number, is in exactly one window.
pub init_renderer-tiles :
    (more cols : ℕ)
    → 0 < more
    → 1 < cols
    → (Fits (init_renderer more cols).status_win (more + 11) cols
        × Fits (init_renderer more cols).left_panel (more + 11) cols
        × Fits (init_renderer more cols).left_bottom (more + 11) cols
        × Fits (init_renderer more cols).right_top (more + 11) cols
        × Fits (init_renderer more cols).right_mid (more + 11) cols
        × Fits (init_renderer more cols).right_bottom (more + 11) cols)
      × ((y x : ℕ)
          → y < more + 11
          → x < 2 * (cols / 2)
          → windows_at (init_renderer more cols) y x ≡ 1)
init_renderer-tiles more cols tall wide =
    subst
      (λ r.
        (Fits r.status_win (more + 11) cols
          × Fits r.left_panel (more + 11) cols
          × Fits r.left_bottom (more + 11) cols
          × Fits r.right_top (more + 11) cols
          × Fits r.right_mid (more + 11) cols
          × Fits r.right_bottom (more + 11) cols)
        × ((y x : ℕ) → y < more + 11 → x < 2 * (cols / 2) → windows_at r y x ≡ 1))
      (sym (init_renderer-wanted more cols tall wide)) (wanted-tiles more cols)
