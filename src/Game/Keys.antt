-- ===== src/Game/Keys.antt =====
-- blasterball/src/lib.rs: pausing and going on.
use bare_metal_blasterball.Base.{
  ℕ, zero, suc, ◌≡◌, true, false, Option, some, ◌>>=◌, List, [], ◌∷◌, ◌++◌, refl,
}
use bare_metal_blasterball.Keyboard.Codes.{KeyCode}
use bare_metal_blasterball.Keyboard.Decoder.{KeyDirection}
use bare_metal_blasterball.Game.Defs.{
  Game, Output, RtcTime, play_drum, play_music, draw_game, paused_message,
}
use bare_metal_blasterball.Game.Loop.{on_key, on_enter, on_escape, on_tick}

-- So many ticks, and what they draw
abbrev pub ticks : ℕ → ℕ → Game → Option (Game × List Output)
ticks fuel zero g = some (g, [])
ticks fuel (suc n) g = do
  (g', out) ← on_tick fuel g
  (g'', out') ← ticks fuel n g'
  some (g'', out ++ out')

-- What is drawn while the game is paused for so many ticks
abbrev pub paused_drawings : ℕ → List Output
paused_drawings zero = []
paused_drawings (suc n) = draw_game ∷ paused_message ∷ []

ticks_step :
    (fuel n : ℕ) (g g' g'' : Game) (out out' : List Output)
    → on_tick fuel g ≡ some (g', out)
    → ticks fuel n g' ≡ some (g'', out')
    → ticks fuel (suc n) g ≡ some (g'', out ++ out')
ticks_step fuel n g g' g'' out out' e e' = rw (e, e') refl

paused_tick :
    (fuel : ℕ) (g : Game)
    → g.has_started ≡ true
    → g.paused ≡ true
    → g.shutdown_attempted ≡ false
    → g.paused_msg_has_been_drawn ≡ true
    → on_tick fuel g ≡ some (g, [])
unfolding on_tick
paused_tick fuel g a b c d = rw (a, b, c, d)

-- Ticks of a paused game that has drawn its message do nothing.
idle_ticks :
    (fuel n : ℕ) (g : Game)
    → g.has_started ≡ true
    → g.paused ≡ true
    → g.shutdown_attempted ≡ false
    → g.paused_msg_has_been_drawn ≡ true
    → ticks fuel n g ≡ some (g, [])
idle_ticks fuel zero g a b c d = refl
idle_ticks fuel (suc n) g a b c d =
    ticks_step fuel n g g g [] [] (paused_tick fuel g a b c d) (idle_ticks fuel n g a b c d)

-- Escape while the game runs pauses it. However many ticks follow, none too, they draw the game and the
-- message once if there is one, and nothing else; and Enter then leaves the game exactly as it was
-- before Escape, with the music and then the drum played. The game has started, is not paused, has no
-- shutdown under way, and is not marked to have drawn the message.
pub pause_resume :
    (fuel n : ℕ) (now now' : RtcTime) (g : Game)
    → g.has_started ≡ true
    → g.paused ≡ false
    → g.shutdown_attempted ≡ false
    → g.paused_msg_has_been_drawn ≡ false
    → (p q : Game) × (on_key now KeyCode.escape KeyDirection.down g ≡ some (p, play_music ∷ []))
      × (ticks fuel n p ≡ some (q, paused_drawings n))
      × (on_key now' KeyCode.enter KeyDirection.down q ≡ some (g, play_drum ∷ []))
unfolding on_key on_enter on_escape on_tick
pause_resume fuel zero now now' g started running alive undrawn =
    let p : Game = record g { paused = true } in
    (p, p, rw started, refl, rw (started, running, undrawn) refl)
pause_resume fuel (suc n) now now' g started running alive undrawn =
    let p : Game = record g { paused = true } in
    let q : Game = record g { paused = true; paused_msg_has_been_drawn = true } in
    (
      p,
      q,
      rw started,
      ticks_step fuel n p q q (draw_game ∷ paused_message ∷ []) [] (rw (started, alive, undrawn))
          (idle_ticks fuel n q started refl alive refl),
      rw (started, running, undrawn) refl,
    )
