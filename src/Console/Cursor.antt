-- ===== src/Console/Cursor.antt =====
-- The cursor stays on the screen.
use a3team_os.Base.{ℕ, ◌*◌, ◌≤◌, ◌<◌, ◌≡◌, refl, false, some, arith, ltb, ==-refl}
use a3team_os.Console.{Screen, advance, scroll, show_cursor, cgaputc}

advance-bound : (c : ℕ) (s : Screen) → s.pos < 24 * 80 → (advance c s).pos ≤ 24 * 80
advance-bound c s h = ground arith

scroll-bound : (s : Screen) → s.pos ≤ 24 * 80 → (scroll s).pos < 24 * 80
scroll-bound s h = ground arith

-- From a cursor on the first 24 rows every character is shown without a panic, and the cursor stays
-- on these rows, over a blank.
pub cgaputc-stays :
    (c : ℕ) (s : Screen)
    → s.pos < 24 * 80
    → (s' : Screen) × (cgaputc c s ≡ some s') × (s'.pos < 24 * 80) × (s'.crt s'.pos ≡ 1824)
unfolding cgaputc
cgaputc-stays c s h =
    let low : (advance c s).pos ≤ 24 * 80 = advance-bound c s h in
    let fine : ltb (25 * 80) (advance c s).pos ≡ false = ground arith in
    rw fine (
      show_cursor (scroll (advance c s)),
      refl,
      scroll-bound (advance c s) low,
      rw (==-refl (scroll (advance c s)).pos),
    )
